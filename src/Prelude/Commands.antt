-- ===== src/Prelude/Commands.antt =====
-- Commands on a state that may fault: `none` is an access to memory that is not allocated.
use mathlib.Core.Path.{◌≡◌, ap, subst}
use mathlib.Core.Option.{Option, none, some}

abbrev pub Cmd : Type 0 → Type 0 → Type 0
Cmd W A = W → Option (A × W)

abbrev pub pure : {W A : Type 0} → A → Cmd W A
pure a w = some (a, w)

infixl 5 ◌>>=◌ ◌>>◌
abbrev pub ◌>>=◌ : {W A B : Type 0} → Cmd W A → (A → Cmd W B) → Cmd W B
◌>>=◌ m f w = elim (m w) [ none ↦ none | some (a, w') ↦ f a w' ]

abbrev pub ◌>>◌ : {W B : Type 0} → Cmd W (Unit {0}) → Cmd W B → Cmd W B
m >> k = m >>= λ _. k

-- A command has one outcome: what holds of the world that it leaves holds of any it is said to leave.
pub one_outcome :
    {W A : Type 0} (P : W → Type 0) {o : Option (A × W)} {a r : A} {w w' : W}
    → o ≡ some (a, w)
    → o ≡ some (r, w')
    → P w
    → P w'
one_outcome P e e' p = subst P (cc) p

-- A command whose first part is known to succeed.
pub bind_some :
    {W A B : Type 0} (c : Cmd W A) (f : A → Cmd W B) (w : W) {w' : W} {a : A}
    → c w ≡ some (a, w')
    → (c >>= f) w ≡ f a w'
bind_some c f w e = ap (λ o. elim o [ none ↦ none | some r ↦ f r.0 r.1 ]) e
