-- ===== src/Framing/Contract.antt =====
-- What a client of `RCHStreamFramer` (src/commercialrchproxy/rch/framing.py) relies on.
use commercial_rchproxy.Common.{
  true, some, List, [], ◌≡◌, refl, sym, ap, ◌∙◌, inl, inr, Bytes, length, length-set_last,
  set_last-set_last, Bool-cases, some-injective, le→leb, ◌==◌, arith,
}
use commercial_rchproxy.Framing.Types.{FramingResult}
use commercial_rchproxy.Framing.Framer.{Limits, Framer, made, init, fresh, finalize_omitted_issues}
use commercial_rchproxy.Framing.Process.{feed_all, finish, close, finished_result, result_of}
use commercial_rchproxy.Framing.Tally.{IsTallied}
use commercial_rchproxy.Framing.Reading.{AreValid}
use commercial_rchproxy.Framing.Feeding.{IsFed, joined, feed_all-IsFed, fresh-IsFed}
use commercial_rchproxy.Framing.Finishing.{IsComplete, finish-IsComplete, close-IsTallied}

-- A framer that the constructor makes is fresh, and its limits have passed the checks.
init-made : (l : Limits) (f : Framer) → init l ≡ made f → (f ≡ fresh l) × AreValid l
unfolding init
init-made l f h = ground arith

-- The summary of the omitted issues is written once, also if `finish` is called again.
finalize_twice :
    (f : Framer)
    → IsTallied f
    → finalize_omitted_issues (finalize_omitted_issues f) ≡ finalize_omitted_issues f
unfolding finalize_omitted_issues
finalize_twice f t = elim (Bool-cases (f.omitted_issue_count == 0)) [
  | inl nothing ↦ simp nothing
  | inr omitted ↦
      let full = t.omitted (ground arith) in
      let fits = le→leb f.limits.max_issues (length f.issues) (omega (arith, full)) in
      simp (omitted, fits, length-set_last, set_last-set_last)
]

close-finished : (f : Framer) → (close f).finished ≡ true
unfolding close
close-finished f = ground arith

finalize-finished : (f : Framer) → f.finished ≡ true → (finalize_omitted_issues f).finished ≡ true
unfolding finalize_omitted_issues
finalize-finished f h = ground arith

close_finished : (f : Framer) → f.finished ≡ true → close f ≡ f
unfolding close
close_finished f h = simp h

module _ (l : Limits) (f : Framer) (made_f : init l ≡ made f)
    (retains : l.retain_history ≡ true) where
  init-IsFed : IsFed l [] f
  init-IsFed = let (e, v) = init-made l f made_f in rw e (fresh-IsFed l v)

  fed :
      (chunks : List Bytes)
      → (g : Framer) × (feed_all f chunks ≡ some g) × IsFed l (joined chunks) g
  fed chunks = feed_all-IsFed [] chunks f retains init-IsFed

  -- However the stream is cut into chunks, feeding them and finishing returns a result that is
  -- complete for the concatenated stream: it counts every byte and every frame of it, the events
  -- and issues stay within their limits, and unless events were dropped the frames retained are
  -- those of the stream, at their offsets and with their bytes.
  pub finish-feed_all :
      (chunks : List Bytes)
      → (r : FramingResult) × (finished_result (feed_all f chunks) ≡ some r)
        × IsComplete l (joined chunks) r
  finish-feed_all chunks =
      let (g, e, r) = fed chunks in ((finish g).0, rw e refl, finish-IsComplete r)

  -- Calling `finish` again returns the same result and leaves the framer as it is.
  pub finish-finish :
      (chunks : List Bytes) (g : Framer)
      → feed_all f chunks ≡ some g
      → finish (finish g).1 ≡ finish g
  unfolding finish
  finish-finish chunks g e =
      let (g', e', r) = fed chunks in
      let r' : IsFed l (joined chunks) g = rw (some-injective g g' (sym e ∙ e')) r in
      let h = close g in
      let twice =
        close_finished (finalize_omitted_issues h) (finalize-finished h (close-finished g)) in
      ap (λ k. (result_of k, k))
        (ap finalize_omitted_issues twice ∙ finalize_twice h (close-IsTallied r'))
