-- ===== src/Strings.antt =====
-- util/strings.rs: ASCII literals as UTF-16.
use wazabi_edr_driver.Base.{ℕ, List, [], ◌∷◌}
use wazabi_edr_driver.Wdk.{as_u16}

-- The `while` loop writes one unit for each byte.
unfoldable pub wstr16 : List ℕ → List ℕ
wstr16 [] = []
wstr16 (b ∷ bs) = as_u16 b ∷ wstr16 bs
