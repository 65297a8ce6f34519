-- ===== src/Address/Samples.antt =====
-- A network interface: tests of the program at a concrete address.
use small_project_for_life_w.Base.{ℕ, zero, suc, ◌<◌, ◌≡◌, refl, some, [], ◌∷◌, get_or, arith}
use small_project_for_life_w.Address.{Bytes, address_main, hex_colon, inet_ntoa}
use small_project_for_life_w.Sem.{digits}
use small_project_for_life_w.Address.ReadBack.{mac_text, read_mac, bytes_of, address_main-read_mac}

abbrev hardware : Bytes
hardware = 0 ∷ 12 ∷ 41 ∷ 171 ∷ 205 ∷ 239 ∷ []

prints_ip :
    (address_main (192, 168, 1, 7) hardware []).0
    ≡ (49 ∷ 57 ∷ 50 ∷ 46 ∷ 49 ∷ 54 ∷ 56 ∷ 46 ∷ 49 ∷ 46 ∷ 55 ∷ [])
unfolding address_main inet_ntoa digits
prints_ip = refl

prints_mac : (address_main (192, 168, 1, 7) hardware (9 ∷ 9 ∷ [])).1 ≡ some (mac_text 6 0 hardware)
unfolding address_main
prints_mac = refl

reads_mac : read_mac (mac_text 6 0 hardware) ≡ hardware
unfolding hex_colon
reads_mac = refl

hardware-small : (j : ℕ) → get_or hardware j 0 < 256
hardware-small zero = omega arith
hardware-small (suc zero) = omega arith
hardware-small (suc (suc zero)) = omega arith
hardware-small (suc (suc (suc zero))) = omega arith
hardware-small (suc (suc (suc (suc zero)))) = omega arith
hardware-small (suc (suc (suc (suc (suc zero))))) = omega arith
hardware-small (suc (suc (suc (suc (suc (suc j)))))) = omega arith

address_main-read_mac_example :
    ((address_main (192, 168, 1, 7) hardware (9 ∷ 9 ∷ [])).1 ≡ some (mac_text 6 0 hardware))
    × (read_mac (mac_text 6 0 hardware) ≡ bytes_of 6 0 hardware)
address_main-read_mac_example =
    address_main-read_mac (192, 168, 1, 7) hardware (9 ∷ 9 ∷ []) hardware-small
