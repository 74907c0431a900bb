-- ===== src/Queues/Tests.antt =====
-- The queue at concrete inputs.
use tun2socket_lwip.Prelude.{ℕ, zero, suc, ◌≡◌, refl, List, [], ◌∷◌, ◌++◌, length, take, drop}
use tun2socket_lwip.Lwip.{Ptr}
use tun2socket_lwip.Queues.{Queue, zeroed, append, append_one, append_loop, pop}
use tun2socket_lwip.Queues.Holds.{Holds, zeroed-Holds, pop-take-drop}
use tun2socket_lwip.Queues.Overflow.{release_all, excess, append_lem}

-- the buffers 1 to `n`, behind `xs`
abbrev buffers : ℕ → List Ptr → List Ptr
buffers zero xs = xs
buffers (suc n) xs = buffers n (suc n ∷ xs)

-- the state is the list of the buffers freed so far, the last one first
abbrev log_free : Ptr → List Ptr → List Ptr
log_free p freed = p ∷ freed

abbrev three : Queue
three = (append log_free zeroed (7 ∷ 0 ∷ 9 ∷ []) []).1

overflow_frees : (append log_free zeroed (buffers 258 []) []).2 ≡ 2 ∷ 1 ∷ []
unfolding append append_loop append_one
overflow_frees = refl

three-Holds : Holds three (7 ∷ 0 ∷ 9 ∷ [])
three-Holds = (append_lem log_free (7 ∷ 0 ∷ 9 ∷ []) [] zeroed-Holds).1

append_lem_example :
    let over = excess (length (◌++◌ {A = Ptr} [] (buffers 258 []))) in
    let (size, q', s') = append log_free zeroed (buffers 258 []) [] in
    (size ≡ 258)
    × Holds q' (drop over ([] ++ buffers 258 []))
    × (s' ≡ release_all log_free (take over ([] ++ buffers 258 [])) [])
append_lem_example = append_lem log_free (buffers 258 []) [] zeroed-Holds

pop-take-drop_example : ((pop three 2).0 ≡ 7 ∷ 0 ∷ []) × Holds (pop three 2).1 (9 ∷ [])
pop-take-drop_example = pop-take-drop 2 three-Holds
