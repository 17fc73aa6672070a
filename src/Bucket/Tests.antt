-- ===== src/Bucket/Tests.antt =====
-- Draws on a token bucket.
use fapilog.Prelude.{◌+◌, ◌-◌, ◌*◌, ◌≤◌, ◌≡◌, refl, true}
use fapilog.Bucket.{Limits, Bucket, draw}
use fapilog.Bucket.Rate.{spent, draw_pays}

abbrev limits : Limits
limits = record { scale = 60; capacity = 2; rate = 1 }

abbrev bucket : Bucket
bucket = record { tokens = 59; last = 10 }

draw_after_refill : draw limits bucket 11 ≡ (record { tokens = 0; last = 11 }, true)
unfolding draw
draw_after_refill = refl

draw_pays_example :
    (spent limits (draw limits bucket 11).1 + (draw limits bucket 11).0.tokens ≤ 59 + (11 - 10) * 1)
    × ((draw limits bucket 11).0.tokens ≤ 2 * 60)
    × ((draw limits bucket 11).0.last ≡ 11)
draw_pays_example = draw_pays limits bucket 11
