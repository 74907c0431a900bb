-- ===== src/Ip4/Tests.antt =====
-- The interface of native/ and a packet for any address.
use tun2socket_lwip.Prelude.{◌≡◌, refl, true, false, none, some, arith, if◌then◌else◌}
use tun2socket_lwip.Lwip.{null}
use tun2socket_lwip.Interface.{
  Netif, Netifs, Interface, global_interface_init, global_if_output, global_if_init, default_mtu,
}
use tun2socket_lwip.Ip4.{isloopback, ismulticast, ip4_route}
use tun2socket_lwip.Ip4.Input.{accepting}
use tun2socket_lwip.Ip4.Input.AnyAddress.{NetifLaws, init-any_address}

abbrev blank_netif : Netif
blank_netif = record {
  name = (0, 0);
  num = 0;
  ip_addr = 0;
  netmask = 0;
  broadcast = false;
  output = none;
  state = null;
  mtu = 0;
  up = false;
  link_up = false;
  is_default = false;
}

abbrev netifs : Netifs
netifs = record {
  cleared = λ n. blank_netif;
  netif_add = λ n init. some (init blank_netif).1;
  netif_set_up = λ n. record n { up = true };
  netif_set_link_up = λ n. record n { link_up = true };
  netif_set_default = λ n. record n { is_default = true };
}

netifs-NetifLaws : NetifLaws netifs
netifs-NetifLaws = record {
  add_eq = λ n n' init e. ground (arith, e);
  cleared_addr = λ n. refl;
  set_up_eq = λ n. refl;
  set_link_up_eq = λ n. refl;
  set_default_eq = λ n. refl;
}

abbrev stopped : Interface
stopped = record { global_if = blank_netif; output_func = none; output_context = null }

abbrev running : Interface
running = record stopped {
  global_if = record blank_netif {
    name = (b'e', b'n');
    output = some global_if_output;
    mtu = default_mtu;
    up = true;
    link_up = true;
    is_default = true;
  };
}

runs : global_interface_init netifs stopped ≡ some running
unfolding global_interface_init global_if_init
runs = refl

-- 8.8.8.8
init-any_address_example :
    (accepting 134744072 running.global_if
      ≡ (if ismulticast 134744072 then none else some running.global_if))
    × (ip4_route (some running.global_if) 134744072
        ≡ (if isloopback 134744072 then none else some running.global_if))
init-any_address_example = init-any_address netifs netifs-NetifLaws stopped running 134744072 runs
