-- ===== src/Tests/Numbers.antt =====
-- Texts that strconv.Atoi reads, and those that it does not.
use compose_cockpit.Base.{◌^◌, ◌-◌, ◌≡◌, refl}
use compose_cockpit.Docker.Conflicts.{port_number}

numbers :
    (port_number "8080" ≡ 8080)
    × (port_number "" ≡ 0)
    × (port_number "80-90" ≡ 0)
    × (port_number "-1" ≡ 2 ^ 64 - 1)
    × (port_number "99999999999999999999" ≡ 2 ^ 63 - 1)
unfolding port_number
numbers = (refl, refl, refl, refl, refl)
