-- ===== src/Tests/Limits.antt =====
-- The limit on connections from one address: peripconn.go.
use justhttp.Base.{◌<◌, ◌≡◌, refl, some, [], ◌∷◌}
use justhttp.Base.Count.{count}
use justhttp.PerIpConn.System.{
  Conns, no_conns, wrap_conn, refuse_conn, close_conn, Reach, wrap, start, next, IsCounted,
  Reach-IsCounted, Reach-no_panic,
}

-- Two connections from one address, with room for one.
abbrev crowded : Conns
crowded = wrap_conn 1 (wrap_conn 1 no_conns 9) 9

crowded-Reach : Reach 1 crowded
crowded-Reach = next (next start (wrap 9 refl)) (wrap 9 refl)

crowded_run : (crowded.opened ≡ 9 ∷ []) × (crowded.refused ≡ 9 ∷ [])
unfolding wrap_conn
crowded_run = (refl, refl)

Reach-IsCounted_example : IsCounted 1 crowded
Reach-IsCounted_example = Reach-IsCounted crowded-Reach

Reach-no_panic_example :
    (0 < count 9 crowded.opened → (t : Conns) × (close_conn crowded 9 ≡ some t))
    × (0 < count 9 crowded.refused → (t : Conns) × (refuse_conn crowded 9 ≡ some t))
Reach-no_panic_example = Reach-no_panic 9 crowded-Reach
