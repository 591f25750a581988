-- ===== src/Framing/Reading.antt =====
-- The invariant of the framer of src/commercialrchproxy/rch/framing.py: what it has found and what
-- it will find in its buffered bytes are the frames of the whole stream.
use commercial_rchproxy.Common.{
  ℕ, ◌+◌, ◌≤◌, Bool, true, false, List, [], ◌∷◌, ◌++◌, ◌≡◌, refl, sym, ap, ◌∙◌, Bytes, length, take,
  drop, map, length-append, append-nil, append_assoc, map-append, take-append, drop-append, arith,
  drop_all, length-drop,
}
use commercial_rchproxy.Framing.Types.{frame_overhead, RchFrame, frames}
use commercial_rchproxy.Framing.Framer.{Limits, Framer, buffered_bytes}
use commercial_rchproxy.Framing.Process.{frame_at}
use commercial_rchproxy.Framing.Moves.{Moved}
use commercial_rchproxy.Framing.Tally.{IsTallied}
use commercial_rchproxy.Framing.NewFrames.{NoFrame, NewFrame}
use commercial_rchproxy.Framing.Spec.{frames_in, frames_in-whole}
use commercial_rchproxy.Framing.Decisions.{GivesUp, Unfinished, IsFrame}

-- The constructor's checks on the limits.
pub record AreValid (l : Limits) : Type 0 where
  pub frame_fits : l.max_data_length + frame_overhead ≤ l.max_buffer_bytes
  pub some_event : 1 ≤ l.max_events
  pub some_issue : 1 ≤ l.max_issues

pub record IsWf (f : Framer) : Type 0 where
  pub valid : AreValid f.limits
  pub fits : f.cursor ≤ length f.buffer
  pub position : f.buffer_offset + length (buffered_bytes f) ≡ f.bytes_seen
  pub tallied : IsTallied f

abbrev pub place : RchFrame → ℕ × Bytes
place r = (r.stream_offset, r.raw)

-- The bytes that may follow: none behind the end of the stream.
abbrev pub MayFollow : Bool → Bytes → Type 0
MayFollow true q = q ≡ []
MayFollow false q = Unit {0}

-- After the bytes `seen`, the frames `found` are those of the stream up to the buffered bytes.
pub record IsReading (final : Bool) (seen : Bytes) (found : List (ℕ × Bytes)) (f : Framer)
    : Type 0 where
  pub ahead :
      (q : Bytes)
      → MayFollow final q
      → frames_in f.limits.max_data_length 0 0 (seen ++ q)
        ≡ found ++ frames_in f.limits.max_data_length 0 f.buffer_offset (buffered_bytes f ++ q)
  pub counted : length found ≡ f.frame_count
  pub kept : f.events_truncated ≡ false → map place (frames f.events) ≡ found

nothing_follows : (final : Bool) (q : Bytes) → final ≡ true → MayFollow final q → q ≡ []
nothing_follows true q e a = a
nothing_follows false q e a = cc

ended :
    (m o o' n : ℕ) (p q : Bytes)
    → q ≡ []
    → n ≡ length p
    → Unfinished m p
    → frames_in m 0 o (p ++ q) ≡ frames_in m 0 o' (drop n p ++ q)
unfolding frames_in
ended m o o' n p q nothing all u = rw (nothing, append-nil, u o, drop_all n p (omega arith)) refl

framed :
    (m o size : ℕ) (p q : Bytes)
    → IsFrame m p size
    → frames_in m 0 o (p ++ q)
      ≡ (o, take (size + frame_overhead) p)
        ∷ frames_in m 0 (o + (size + frame_overhead)) (drop (size + frame_overhead) p ++ q)
framed m o size p q s =
    frames_in-whole m o size (p ++ q) (s.head q)
    ∙ rw (take-append _ p q s.at_most, drop-append _ p q s.at_most) refl

-- A round that consumes `n` bytes keeps the framer well formed.
pub Moved-IsWf :
    {f h : Framer} {n : ℕ}
    → IsWf f
    → Moved f n h
    → n ≤ length (buffered_bytes f)
    → IsTallied h
    → IsWf h
Moved-IsWf {f} {h} {n} w m le t = record {
  valid = rw m.limits w.valid;
  fits = m.fits;
  position =
      rw (m.bytes, m.offset, m.seen) (omega (arith, length-drop n (buffered_bytes f), w.position));
  tallied = t;
}

module _ (final : Bool) (seen : Bytes) (found : List (ℕ × Bytes)) {f h : Framer} {n : ℕ}
    (m : Moved f n h) (r : IsReading final seen found f) where
  pub skip-IsReading :
      GivesUp f.limits.max_data_length (buffered_bytes f) n
      → NoFrame f h
      → IsReading final seen found h
  skip-IsReading s nf = record {
    ahead = λ q a.
        rw (m.limits, m.offset, m.bytes)
          (r.ahead q a ∙ ap (◌++◌ found) (s.skips f.buffer_offset q));
    counted = r.counted ∙ sym nf.count;
    kept = λ k. let (k', e) = nf.kept k in ap (map place) e ∙ r.kept k';
  }

  pub end-IsReading :
      final ≡ true
      → n ≡ length (buffered_bytes f)
      → Unfinished f.limits.max_data_length (buffered_bytes f)
      → NoFrame f h
      → IsReading final seen found h
  end-IsReading last all u nf = record {
    ahead = λ q a.
        rw (m.limits, m.offset, m.bytes)
          (r.ahead q a
            ∙ ap (◌++◌ found) (
                ended _ f.buffer_offset _ n (buffered_bytes f) q (nothing_follows final q last a)
                  all u));
    counted = r.counted ∙ sym nf.count;
    kept = λ k. let (k', e) = nf.kept k in ap (map place) e ∙ r.kept k';
  }

  pub frame-IsReading :
      (size : ℕ)
      → n ≡ size + frame_overhead
      → IsFrame f.limits.max_data_length (buffered_bytes f) size
      → NewFrame f (frame_at f (buffered_bytes f) size) h
      → IsReading final seen (found ++ (place (frame_at f (buffered_bytes f) size) ∷ [])) h
  unfolding frame_at
  frame-IsReading size e s nf = record {
    ahead = λ q a.
        rw (m.limits, m.offset, m.bytes, e)
          (r.ahead q a
            ∙ ap (◌++◌ found) (framed _ f.buffer_offset size (buffered_bytes f) q s)
            ∙ sym (append_assoc found _ _));
    counted = omega (
      arith,
      length-append found (place (frame_at f (buffered_bytes f) size) ∷ []),
      r.counted,
      nf.count,
    );
    kept = λ k.
        let (k', e') = nf.kept k in
        ap (map place) e'
        ∙ map-append place _ _
        ∙ ap (λ l. l ++ (place (frame_at f (buffered_bytes f) size) ∷ [])) (r.kept k');
  }
