-- ===== src/Framing/Feeding.antt =====
-- `feed` of src/commercialrchproxy/rch/framing.py: whatever the chunks and however the buffer is
-- compacted and refilled, the framer reads the concatenated stream.
use commercial_rchproxy.Common.{
  ℕ, zero, suc, ◌-◌, ◌≤◌, min, true, false, some, List, [], ◌∷◌, ◌++◌, ◌≡◌, refl, sym, ap, ◌∙◌, inl,
  inr, Bytes, length, take, drop, map, length-append, append-nil, append_assoc, take-append-drop,
  length-zero, drop-append, Bool-cases, ◌==◌, arith, length-drop,
}
use commercial_rchproxy.Framing.Types.{StreamEvent, frames}
use commercial_rchproxy.Framing.Framer.{Limits, Framer, buffered_bytes, available, fresh}
use commercial_rchproxy.Framing.Process.{
  process, compact, make_room, extend, feed_round, feed_rounds, drop_history, feed, feed_all,
}
use commercial_rchproxy.Framing.Tally.{IsTallied}
use commercial_rchproxy.Framing.Spec.{frames_in}
use commercial_rchproxy.Framing.Reading.{AreValid, IsWf, IsReading, place}
use commercial_rchproxy.Framing.Segmentation.{AtRest, process-Settles}

-- A framer that has read `seen` and waits for more.
pub record IsFed (l : Limits) (seen : Bytes) (f : Framer) : Type 0 where
  pub found : List (ℕ × Bytes)
  pub wf : IsWf f
  pub reading : IsReading false seen found f
  pub at_rest : AtRest false f
  pub limits : f.limits ≡ l
  pub open_yet : f.finished ≡ false
  pub total : f.bytes_seen ≡ length seen

pub fresh-IsFed : (l : Limits) → AreValid l → IsFed l [] (fresh l)
unfolding frames_in frames
fresh-IsFed l v = record {
  found = [];
  wf = record { valid = v; fits = omega arith; position = refl; tallied = ground arith };
  reading = record { ahead = λ q a. refl; counted = refl; kept = λ k. refl };
  at_rest = omega arith;
  limits = refl;
  open_yet = refl;
  total = refl;
}

-- The buffer is laid out anew, and nothing else changes.
record SameView (f g : Framer) : Type 0 where
  limits : g.limits ≡ f.limits
  bytes : buffered_bytes g ≡ buffered_bytes f
  offset : g.buffer_offset ≡ f.buffer_offset
  seen : g.bytes_seen ≡ f.bytes_seen
  fits : g.cursor ≤ length g.buffer
  events : g.events ≡ f.events
  truncated : g.events_truncated ≡ f.events_truncated
  frame_count : g.frame_count ≡ f.frame_count
  finished : g.finished ≡ f.finished
  tallied : IsTallied g

compact-SameView : (f : Framer) → IsWf f → SameView f (compact f)
unfolding compact
compact-SameView f w = elim (Bool-cases (available f == 0)) [
  | inl used ↦ rw used (
      let e = length-zero (buffered_bytes f) (ground (arith, length-drop f.cursor f.buffer)) in
      record {
        limits = refl;
        bytes = sym e;
        offset = omega (arith, w.position, ap length e);
        seen = refl;
        fits = omega arith;
        events = refl;
        truncated = refl;
        frame_count = refl;
        finished = refl;
        tallied = record {
          events = w.tallied.events;
          issues = w.tallied.issues;
          balance = w.tallied.balance;
          omitted = w.tallied.omitted;
        };
      })
  | inr left ↦ rw left (elim (Bool-cases (f.cursor == 0)) [
    | inl front ↦ rw front (record {
      limits = refl;
      bytes = refl;
      offset = refl;
      seen = refl;
      fits = w.fits;
      events = refl;
      truncated = refl;
      frame_count = refl;
      finished = refl;
      tallied = w.tallied;
    })
    | inr consumed ↦ rw consumed (record {
      limits = refl;
      bytes = refl;
      offset = refl;
      seen = refl;
      fits = omega arith;
      events = refl;
      truncated = refl;
      frame_count = refl;
      finished = refl;
      tallied = record {
        events = w.tallied.events;
        issues = w.tallied.issues;
        balance = w.tallied.balance;
        omitted = w.tallied.omitted;
      };
    })
  ])
]

module _ {l : Limits} {seen : Bytes} {f : Framer} (r : IsFed l seen f) where
  pub compact-IsFed : IsFed l seen (compact f)
  compact-IsFed =
      let s = compact-SameView f r.wf in
      record {
        found = r.found;
        wf = record {
          valid = rw s.limits r.wf.valid;
          fits = s.fits;
          position = rw (s.bytes, s.offset, s.seen) r.wf.position;
          tallied = s.tallied;
        };
        reading = record {
          ahead = λ q a. rw (s.limits, s.offset, s.bytes) (r.reading.ahead q a);
          counted = r.reading.counted ∙ sym s.frame_count;
          kept =
              λ k. ap (λ es. map place (frames es)) s.events ∙ r.reading.kept (sym s.truncated ∙ k);
        };
        at_rest = rw (s.bytes, s.limits) r.at_rest;
        limits = s.limits ∙ r.limits;
        open_yet = s.finished ∙ r.open_yet;
        total = s.seen ∙ r.total;
      }

  -- The defensive branch on a full buffer is never taken.
  pub make_room-IsFed : make_room f ≡ (f, f.limits.max_buffer_bytes - available f)
  unfolding make_room
  make_room-IsFed =
      let room : (f.limits.max_buffer_bytes - available f == 0) ≡ false =
        ground (arith, length-drop f.cursor f.buffer, r.at_rest, r.wf.valid.frame_fits) in
      rw room refl

  extend-IsReading : (b : Bytes) → IsReading false (seen ++ b) r.found (extend f b)
  unfolding extend
  extend-IsReading b = record {
    ahead = λ q a. rw (drop-append f.cursor f.buffer b r.wf.fits) (
        rw (append_assoc seen b q, append_assoc (buffered_bytes f) b q)
          (r.reading.ahead (b ++ q) tt));
    counted = r.reading.counted;
    kept = r.reading.kept;
  }

  extend-IsWf : (b : Bytes) → IsWf (extend f b)
  unfolding extend
  extend-IsWf b = record {
    valid = r.wf.valid;
    fits = omega (arith, length-append f.buffer b, r.wf.fits);
    position =
        rw (drop-append f.cursor f.buffer b r.wf.fits)
          (omega (arith, length-append (buffered_bytes f) b, r.wf.position));
    tallied = record {
      events = r.wf.tallied.events;
      issues = r.wf.tallied.issues;
      balance = r.wf.tallied.balance;
      omitted = r.wf.tallied.omitted;
    };
  }

  extended-IsFed : (b : Bytes) → IsFed l (seen ++ b) (process false (extend f b))
  unfolding extend
  extended-IsFed b =
      let s =
        process-Settles false (seen ++ b) r.found (extend f b) (extend-IsWf b)
          (extend-IsReading b) in
      record {
        found = s.found;
        wf = s.wf;
        reading = s.reading;
        at_rest = s.at_rest;
        limits = s.limits ∙ r.limits;
        open_yet = s.finished ∙ r.open_yet;
        total = s.seen_same ∙ omega (arith, r.total, length-append seen b);
      }

-- A round reads a nonempty part of the chunk.
module _ {l : Limits} {seen : Bytes} {f : Framer} (r : IsFed l seen f) where
  room_left : (g : Framer) → IsFed l seen g → 1 ≤ g.limits.max_buffer_bytes - available g
  room_left g s = ground (arith, length-drop g.cursor g.buffer, s.at_rest, s.wf.valid.frame_fits)

  feed_round-IsFed :
      (view : Bytes)
      → 1 ≤ length view
      → (n : ℕ) × (1 ≤ n)
        × ((feed_round f view).1 ≡ drop n view)
        × IsFed l (seen ++ take n view) (feed_round f view).0
  unfolding feed_round
  feed_round-IsFed view some_left =
      let c = compact-IsFed r in
      let n = min ((compact f).limits.max_buffer_bytes - available (compact f)) (length view) in
      (
        n,
        omega (arith, room_left (compact f) c, some_left),
        rw (make_room-IsFed c) refl,
        rw (make_room-IsFed c) (extended-IsFed c (take n view)),
      )

feed_rounds-IsFed :
    (l : Limits) (fuel : ℕ) (seen view : Bytes) (f : Framer)
    → length view ≤ fuel
    → IsFed l seen f
    → IsFed l (seen ++ view) (feed_rounds fuel f view)
unfolding feed_rounds
feed_rounds-IsFed l zero seen view f enough r = rw (length-zero view enough, append-nil) r
feed_rounds-IsFed l (suc fuel) seen [] f enough r = rw append-nil r
feed_rounds-IsFed l (suc fuel) seen (b ∷ bs) f enough r =
    let (n, pos, rest, fed) = feed_round-IsFed r (b ∷ bs) (omega arith) in
    let done =
      feed_rounds-IsFed l fuel (seen ++ take n (b ∷ bs)) (drop n (b ∷ bs)) (feed_round f (b ∷ bs)).0
        (omega (arith, length-drop n (b ∷ bs), pos)) fed in
    rw rest (rw (append_assoc, take-append-drop) at done)

retained : (g : Framer) → g.limits.retain_history ≡ true → drop_history g ≡ g
unfolding drop_history
retained g h = rw h refl

-- `feed` with its history retained: it returns, and has read the chunk.
pub feed-IsFed :
    {l : Limits} (seen chunk : Bytes) (f : Framer)
    → l.retain_history ≡ true
    → IsFed l seen f
    → (emitted : List StreamEvent) × (g : Framer) × (feed f chunk ≡ some (emitted, g))
      × IsFed l (seen ++ chunk) g
unfolding feed
feed-IsFed {l} seen [] f retains r = ([], f, simp r.open_yet, rw append-nil r)
feed-IsFed {l} seen (b ∷ bs) f retains r =
    let g = feed_rounds (length (b ∷ bs)) f (b ∷ bs) in
    let fed = feed_rounds-IsFed l (length (b ∷ bs)) seen (b ∷ bs) f (omega arith) r in
    (drop (length f.events) g.events, g, simp (r.open_yet, retained g (rw fed.limits retains)), fed)

-- The stream that the chunks make.
abbrev pub joined : List Bytes → Bytes
joined [] = []
joined (chunk ∷ chunks) = chunk ++ joined chunks

pub feed_all-IsFed :
    {l : Limits} (seen : Bytes) (chunks : List Bytes) (f : Framer)
    → l.retain_history ≡ true
    → IsFed l seen f
    → (g : Framer) × (feed_all f chunks ≡ some g) × IsFed l (seen ++ joined chunks) g
unfolding feed_all
feed_all-IsFed seen [] f retains r = (f, refl, rw append-nil r)
feed_all-IsFed seen (chunk ∷ chunks) f retains r =
    let (emitted, g, e, fed) = feed-IsFed seen chunk f retains r in
    let (h, e', fed') = feed_all-IsFed (seen ++ chunk) chunks g retains fed in
    (h, rw (e, feed_all) e', rw append_assoc at fed')
