-- ===== src/Config/PortTests.antt =====
-- A list of ports.
use rathole_ng.Prelude.{◌≡◌, refl, true, [], ◌∷◌, arith}
use rathole_ng.Config.Ports.{is_port_allowed}
use rathole_ng.Config.Allowed.{
  PortRange, show_ranges, some_holds, holds, is_port_allowed-show_ranges,
}

is_port_allowed-show_ranges_example :
    is_port_allowed (show_ranges (PortRange.single 22) (PortRange.between 8000 8010 ∷ [])) 8005
    ≡ some_holds 8005 (PortRange.single 22 ∷ PortRange.between 8000 8010 ∷ [])
is_port_allowed-show_ranges_example =
    is_port_allowed-show_ranges 8005 (PortRange.single 22) (PortRange.between 8000 8010 ∷ [])
      (omega arith, ((omega arith, omega arith), tt))

named_allowed : some_holds 8005 (PortRange.single 22 ∷ PortRange.between 8000 8010 ∷ []) ≡ true
unfolding some_holds holds
named_allowed = refl
