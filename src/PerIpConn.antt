-- ===== src/PerIpConn.antt =====
-- The limit on connections from one address: peripconn.go, and `wrapPerIPConn` of server.go.
pub mod Address
pub mod System
use justhttp.Base.{ℕ, ◌+◌, ◌-◌, ◌<◌, ◌≡◌, refl, Option, none, some, arith, ◌==◌, if◌then◌else◌}

-- `perIPConnCounter`: `none` is the nil map, a missing key counts 0. `Unregister` stores no negative
-- number, so the numbers of the map are natural.
pub record PerIpConnCounter : Type 0 where
  pub m : Option (ℕ → ℕ)

abbrev pub no_counter : PerIpConnCounter
no_counter = record { m = none }

-- `cc.m[ip]`.
abbrev pub lookup : Option (ℕ → ℕ) → ℕ → ℕ
lookup none ip = 0
lookup (some m) ip = m ip

abbrev pub update : (ℕ → ℕ) → ℕ → ℕ → ℕ → ℕ
update m ip n k = if k == ip then n else m k

-- The map after the nil check of `Register`.
abbrev pub made : Option (ℕ → ℕ) → ℕ → ℕ
made none = λ ip. 0
made (some m) = m

unfoldable pub register : PerIpConnCounter → ℕ → PerIpConnCounter × ℕ
register cc ip = let n = made cc.m ip + 1 in (record { m = some (update (made cc.m) ip n) }, n)

-- `none` is a panic: the nil map, or a count that would be negative.
unfoldable pub unregister : PerIpConnCounter → ℕ → Option PerIpConnCounter
unregister cc ip = elim cc.m [
  | none ↦ none
  | some m ↦ if m ip == 0 then none else some (record { m = some (update m ip (m ip - 1)) })
]

pub made-lookup : (m : Option (ℕ → ℕ)) (k : ℕ) → made m k ≡ lookup m k
made-lookup none k = refl
made-lookup (some m) k = refl

unregister_map :
    (m : Option (ℕ → ℕ)) (ip : ℕ) {cc : PerIpConnCounter}
    → unregister (record { m = m }) ip ≡ some cc
    → (0 < lookup m ip)
      × ((k : ℕ) → lookup cc.m k ≡ (if k == ip then lookup m ip - 1 else lookup m k))
unfolding unregister
unregister_map none ip h = cc
unregister_map (some m) ip {cc = c} h = (ground arith, λ k. ground arith)

-- What `Unregister` leaves where it does not panic.
pub unregister_lem :
    (cc : PerIpConnCounter) (ip : ℕ) {cc' : PerIpConnCounter}
    → unregister cc ip ≡ some cc'
    → (0 < lookup cc.m ip)
      × ((k : ℕ) → lookup cc'.m k ≡ (if k == ip then lookup cc.m ip - 1 else lookup cc.m k))
unregister_lem cc ip h = unregister_map cc.m ip h

unregister_map_total :
    (m : Option (ℕ → ℕ)) (ip : ℕ)
    → 0 < lookup m ip
    → (cc' : PerIpConnCounter) × (unregister (record { m = m }) ip ≡ some cc')
unfolding unregister
unregister_map_total none ip h = absurd (omega arith)
unregister_map_total (some m) ip h = (record { m = some (update m ip (m ip - 1)) }, ground arith)

pub unregister_total :
    (cc : PerIpConnCounter) (ip : ℕ)
    → 0 < lookup cc.m ip
    → (cc' : PerIpConnCounter) × (unregister cc ip ≡ some cc')
unregister_total cc ip h = unregister_map_total cc.m ip h
