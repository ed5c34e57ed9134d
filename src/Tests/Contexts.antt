-- ===== src/Tests/Contexts.antt =====
-- The values of a request context: userdata.go.
use justhttp.Base.{ℕ, [], ◌∷◌, codes}
use justhttp.UserData.{UserData}

abbrev user : UserData ℕ
user = record {
  visible = (record { key = codes "id"; value = 7 }) ∷ [];
  spare = (record { key = codes "stale"; value = 9 }) ∷ [];
}
