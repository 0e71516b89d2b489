-- ===== src/RateLimit/Tests.antt =====
-- A limit of two requests in ten nanoseconds, at the third request.
use filum_reforge.Base.{ℕ, ◌≡◌, refl, ◌∷◌, List, [], arith, length, ltb, select_if}
use filum_reforge.RateLimit.{check_bucket}
use filum_reforge.RateLimit.Window.{within, IsOrdered, Tracks, note_allowed, check_bucket_correct}

abbrev hits : List ℕ
hits = 3 ∷ 5 ∷ []

hits_tracked : Tracks 2 10 5 hits hits
unfolding IsOrdered
hits_tracked = record {
  ordered = ((omega arith, tt), (tt, tt));
  past = (omega arith, (omega arith, tt));
  bounded = omega arith;
  agree = λ now later. refl;
}

check_bucket_correct_example :
    ((check_bucket 2 10 12 hits).0.allowed ≡ ltb (length (select_if (within 10 12) hits)) 2)
    × Tracks 2 10 12
        (check_bucket 2 10 12 hits).1
        (note_allowed (check_bucket 2 10 12 hits).0.allowed 12 hits)
check_bucket_correct_example = check_bucket_correct 2 10 5 12 hits hits hits_tracked (omega arith)
