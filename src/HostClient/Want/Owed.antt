-- ===== src/HostClient/Want/Owed.antt =====
-- Connections that are delivered to a `wantConn` and not collected yet.
use justhttp.Base.{
  ℕ, zero, suc, ◌+◌, ◌≡◌, refl, ap, inl, inr, true, false, not, ◌&&◌, some, List, [], ◌∷◌, ◌++◌,
  arith, if◌then◌else◌, Bool-cases, Option-cases, get_elem?, is_none, All,
}
use justhttp.HostClient.Want.{
  ClientConn, ClientError, WantConn, new_want, is_settled, connected, broken, try_deliver, cancel,
  collect, waiting, put_want,
}

abbrev pub owes : WantConn → ℕ
owes w = if w.pending && not (is_none w.conn) then 1 else 0

abbrev pub owed : List WantConn → ℕ
owed [] = 0
owed (w ∷ wants) = owes w + owed wants

-- The channel is closed exactly if there is a connection or an error, and nothing is open behind
-- the end of `acquireConn`.
pub record IsWant (w : WantConn) : Type 0 where
  pub closes : w.ready ≡ is_settled w
  pub kept : w.ready ≡ false → w.pending ≡ true

pub owed-append : (wants : List WantConn) → owed (wants ++ new_want ∷ []) ≡ owed wants
owed-append [] = refl
owed-append (w ∷ wants) = ap (λ n. owes w + n) (owed-append wants)

pub IsWant-new : IsWant new_want
unfolding is_settled
IsWant-new = record { closes = refl; kept = λ e. refl }

pub All-append_new :
    (wants : List WantConn) → All IsWant wants → All IsWant (wants ++ new_want ∷ [])
All-append_new [] a = (IsWant-new, tt)
All-append_new (w ∷ wants) (h, a) = (h, All-append_new wants a)

pub owed-put_want :
    (wants : List WantConn) (i : ℕ) (w w' : WantConn)
    → get_elem? wants i ≡ some w
    → owed (put_want wants i w') + owes w ≡ owed wants + owes w'
unfolding put_want
owed-put_want [] i w w' e = cc
owed-put_want (v ∷ wants) zero w w' e = let same : v ≡ w = cc in rw same (omega arith)
owed-put_want (v ∷ wants) (suc i) w w' e = omega (arith, owed-put_want wants i w w' e)

pub All-put_want :
    (wants : List WantConn) (i : ℕ) (w' : WantConn)
    → All IsWant wants
    → IsWant w'
    → All IsWant (put_want wants i w')
unfolding put_want
All-put_want [] i w' a h = tt
All-put_want (v ∷ wants) zero w' (hv, a) h = (h, a)
All-put_want (v ∷ wants) (suc i) w' (hv, a) h = (hv, All-put_want wants i w' a h)

pub IsWant-get_elem? :
    (wants : List WantConn) (i : ℕ) (w : WantConn)
    → All IsWant wants
    → get_elem? wants i ≡ some w
    → IsWant w
IsWant-get_elem? [] i w a e = cc
IsWant-get_elem? (v ∷ wants) zero w (h, a) e = let same : v ≡ w = cc in rw (← same) h
IsWant-get_elem? (v ∷ wants) (suc i) w (h, a) e = IsWant-get_elem? wants i w a e

pub waiting-some :
    (wants : List WantConn) (i : ℕ)
    → waiting wants i ≡ true
    → (w : WantConn) × (get_elem? wants i ≡ some w) × (w.ready ≡ false)
unfolding waiting
waiting-some wants i h = elim (Option-cases (get_elem? wants i)) [
  | inl gone ↦ ground (arith, gone, h)
  | inr (w, found) ↦ (w, found, ground (arith, found, h))
]

-- What `tryDeliver` makes of a `wantConn` that nothing has reached.
pub try_deliver-open :
    (w : WantConn) (cc : ClientConn)
    → IsWant w
    → w.ready ≡ false
    → (try_deliver w (connected cc) ≡ (record w { ready = true; conn = some cc }, true))
      × (owes w ≡ 0)
      × (w.pending ≡ true)
unfolding try_deliver is_settled
try_deliver-open w cc v h =
    (ground (arith, v.closes, v.kept, h), ground (arith, v.closes, v.kept, h), v.kept h)

pub try_deliver-owes :
    (w : WantConn) (cc : ClientConn)
    → IsWant w
    → (owes (try_deliver w (connected cc)).0
        ≡ owes w + (if (try_deliver w (connected cc)).1 then 1 else 0))
      × IsWant (try_deliver w (connected cc)).0
unfolding try_deliver is_settled
try_deliver-owes w cc v = elim (Bool-cases (is_settled w)) [
  | inl settled ↦ rw settled (omega arith, v)
  | inr free ↦ (
    ground (arith, free, v.closes, v.kept),
    rw free (record { closes = refl; kept = λ e. absurd (ground (arith, e)) }),
  )
]

pub IsWant-broken :
    (w : WantConn) (e : ClientError)
    → IsWant w
    → (owes (try_deliver w (broken e)).0 ≡ owes w) × IsWant (try_deliver w (broken e)).0
unfolding try_deliver is_settled
IsWant-broken w e v = elim (Bool-cases (is_settled w)) [
  | inl settled ↦ rw settled (refl, v)
  | inr free ↦ (
    ground (arith, free, v.closes, v.kept),
    rw free (record { closes = ground (arith, free); kept = λ h. absurd (ground (arith, h)) }),
  )
]

pub IsWant-cancel : (w : WantConn) (e : ClientError) → IsWant w → IsWant (cancel w e).0
unfolding cancel is_settled
IsWant-cancel w e v = record {
  closes = ground (arith, v.closes);
  kept = λ h. absurd (ground (arith, v.closes, h));
}

pub IsWant-collect : (w : WantConn) → w.ready ≡ true → IsWant w → IsWant (collect w)
unfolding collect is_settled
IsWant-collect w r v = record { closes = v.closes; kept = λ h. absurd (ground (arith, r, h)) }
