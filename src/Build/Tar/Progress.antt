-- ===== src/Build/Tar/Progress.antt =====
-- pkg/build/tar.go: how long the opener and the writer run, and what they wait for.
use containerdisks.Base.{
  ℕ, suc, ◌+◌, ◌≤◌, ◌<◌, ◌≡◌, ◌≢◌, refl, ap, true, false, none, some, List, [], ◌∷◌, ◌++◌, Text,
  ◌⊎◌, inl, inr, arith,
}
use containerdisks.Go.Result.{Error}
use containerdisks.Build.Tar.{
  Writer, opening, stating, adding, footing, leaving, gone, failing, Opener, waiting, returned,
  Stream, started, Step, Steps, stay, more, open_ok, open_failed, stat_ok, stat_failed, hand_over,
  go_on, add_ok, add_failed, footer_ok, footer_failed, leave,
}
use containerdisks.Build.Tar.Streams.{Place, refusals_of, steps-IsSound}

module _ (image_path : Text) where
  abbrev writer_weight : Writer → ℕ
  writer_weight opening = 5
  writer_weight stating = 4
  writer_weight (failing e) = 3
  writer_weight adding = 3
  writer_weight footing = 2
  writer_weight leaving = 1
  writer_weight gone = 0

  abbrev opener_weight : Opener → ℕ
  opener_weight waiting = 1
  opener_weight (returned r) = 0

  abbrev weight : Stream → ℕ
  weight s = writer_weight s.writer + opener_weight s.opener

  abbrev pub steps_of : {s t : Stream} → Steps image_path s t → ℕ
  steps_of stay = 0
  steps_of (more r x) = suc (steps_of r)

  step-weight : (s t : Stream) → Step image_path s t → weight t < weight s
  step-weight s t (open_ok w q) = rw q (omega (arith, ap writer_weight w))
  step-weight s t (open_failed e w q) = rw q (omega (arith, ap writer_weight w))
  step-weight s t (stat_ok w q) = rw q (omega (arith, ap writer_weight w))
  step-weight s t (stat_failed e w q) = rw q (omega (arith, ap writer_weight w))
  step-weight s t (hand_over e w o q) = rw q (omega (arith, ap writer_weight w, ap opener_weight o))
  step-weight s t (go_on c o q) = rw q (omega (arith, ap opener_weight o))
  step-weight s t (add_ok w o q) = rw q (omega (arith, ap writer_weight w))
  step-weight s t (add_failed e w o q) = rw q (omega (arith, ap writer_weight w))
  step-weight s t (footer_ok w o q) = rw q (omega (arith, ap writer_weight w))
  step-weight s t (footer_failed e w o q) = rw q (omega (arith, ap writer_weight w))
  step-weight s t (leave w q) = rw q (omega (arith, ap writer_weight w))

  steps-weight : (s : Stream) (r : Steps image_path started s) → steps_of r + weight s ≤ 6
  steps-weight _ stay = omega arith
  steps-weight u (more {t} r x) = omega (arith, steps-weight t r, step-weight t u x)

  -- A side has not ended.
  abbrev pub IsRunning : Stream → Type 0
  IsRunning s = (s.writer ≢ gone) ⊎ (s.opener ≡ waiting)

  -- With the channel closed a waiting opener goes on, and only then the archive is written.
  next_adding :
      (s : Stream)
      → s.writer ≡ adding
      → (s.opener ≡ waiting) ⊎ (s.opener ≡ returned none)
      → s.channel_closed ≡ true
      → (t : Stream) × Step image_path s t
  next_adding s w (inl o) c = (record s { opener = returned none }, go_on c o refl)
  next_adding s w (inr o) c = (record s { writer = footing }, add_ok w o refl)

  next :
      (s : Stream) (refusals : List Error) (p : Writer)
      → s.writer ≡ p
      → Place refusals p s.opener s.channel_closed s.file_open
      → IsRunning s
      → (t : Stream) × Step image_path s t
  next s refusals opening w place run =
      (record s { writer = stating; file_open = true }, open_ok w refl)
  next s refusals stating w place run =
      (record s { writer = adding; channel_closed = true }, stat_ok w refl)
  next s refusals (failing e) w place run =
      (record s { writer = leaving; opener = returned (some e) }, hand_over e w place.0 refl)
  next s refusals adding w place run = next_adding s w place.0 place.1
  next s refusals footing w place run = (record s { writer = leaving }, footer_ok w place.0 refl)
  next s refusals leaving w place run = (
    record s { writer = gone; file_open = false; closings = s.closings ++ none ∷ [] },
    leave w refl,
  )
  next s refusals gone w place (inl going) = absurd (going w)
  next s refusals gone w (inl (k, r), closed) (inr o) = absurd (cc (k, o))
  next s refusals gone w (inr (e, k, r), closed) (inr o) = absurd (cc (k, o))

  -- However the steps of the opener and of the writer interleave, and whichever of the calls fail,
  -- there are at most six, and as long as one of the two has not ended there is a next one: neither
  -- waits for ever, although what the writer puts into the pipe waits until the opener has returned
  -- the reader, and the opener waits for the writer. The reader is taken to be read to its end or
  -- closed from then on, and the calls of the file to return.
  pub stream_progress :
      (s : Stream) (r : Steps image_path started s)
      → (steps_of r ≤ 6) × (IsRunning s → (t : Stream) × Step image_path s t)
  stream_progress s r =
      let h = steps-IsSound image_path s r in
      (
        omega (arith, steps-weight s r),
        λ run. next s (refusals_of image_path r) s.writer refl h.place run,
      )
