-- ===== src/Interface.antt =====
-- native/interface.c: the one network interface of the stack, and the device attached to it.
-- `struct netif` is lwIP's; the fields that the other files read or write are modelled, with three of
-- its flags as fields.
use tun2socket_lwip.Prelude.{
  ℕ, zero, suc, Bool, not, ◌||◌, Option, none, some, ◌==◌, is_some, ℤ, pos, negsuc,
}
use tun2socket_lwip.Lwip.{Ptr, null, ErrT, err_ok, u16}

-- DEFAULT_MTU
abbrev pub default_mtu : ℕ
default_mtu = 1500

-- The functions that are stored as `netif->output`, and as a `global_interface_output_func`.
pub data NetifOutput : Type 0 where
  global_if_output : NetifOutput

pub data OutputFunc : Type 0 where
  if_output : OutputFunc

pub record Netif : Type 0 where
  pub name : ℕ × ℕ
  pub num : ℕ
  pub ip_addr : ℕ
  pub netmask : ℕ
  pub broadcast : Bool
  pub output : Option NetifOutput
  pub state : Ptr
  pub mtu : ℕ
  pub up : Bool
  pub link_up : Bool
  pub is_default : Bool

-- the static variables of interface.c
pub record Interface : Type 0 where
  pub global_if : Netif
  pub output_func : Option OutputFunc
  pub output_context : Ptr

-- `global_if_init`
unfoldable pub global_if_init : Netif → ErrT × Netif
global_if_init n =
    (err_ok, record n { name = (b'e', b'n'); output = some global_if_output; state = null })

-- lwIP's calls on interfaces, with what native/ relies on: `netif_add` clears the interface and
-- hands it to `init`, and gives NULL if that fails.
pub record Netifs : Type 0 where
  pub cleared : Netif → Netif
  pub netif_add : Netif → (Netif → ErrT × Netif) → Option Netif
  pub netif_set_up : Netif → Netif
  pub netif_set_link_up : Netif → Netif
  pub netif_set_default : Netif → Netif

-- `global_interface_init`; `none` is the failed assertion `created != NULL`
unfoldable pub global_interface_init : Netifs → Interface → Option Interface
global_interface_init lwip i = elim (lwip.netif_add i.global_if global_if_init) [
  | none ↦ none
  | some created ↦ some (record i {
    global_if =
        lwip.netif_set_default
          (lwip.netif_set_link_up (lwip.netif_set_up (record created { mtu = default_mtu })));
  })
]

-- `if (mtu <= 0) mtu = DEFAULT_MTU;`
usable_mtu : ℤ → ℕ
usable_mtu (pos zero) = default_mtu
usable_mtu (pos (suc n)) = suc n
usable_mtu (negsuc n) = default_mtu

-- `global_interface_attach_device`. `netif->mtu` is a `u16_t`.
unfoldable pub attach_device : Option OutputFunc → Ptr → ℤ → Interface → Interface
unfolding usable_mtu
attach_device output ctx mtu i = record i {
  global_if = record (i.global_if) { mtu = u16 (usable_mtu mtu) };
  output_func = output;
  output_context = ctx;
}

-- `global_interface_is_attached`
unfoldable pub is_attached : Interface → Bool
is_attached i = is_some i.output_func || not (i.output_context == null)
