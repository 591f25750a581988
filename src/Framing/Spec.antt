-- ===== src/Framing/Spec.antt =====
-- The frames of a whole stream, read byte by byte with no buffer, no limit on events and no
-- segmentation: what src/commercialrchproxy/rch/framing.py means to find.
use commercial_rchproxy.Common.{
  ℕ, zero, suc, ◌+◌, not, ◌&&◌, List, [], ◌∷◌, ◌++◌, ◌≡◌, refl, ap, ◌∙◌, Bytes, length, get_or,
  take, drop, slice, ltb, ◌==◌, if◌then◌else◌, arith,
}
use commercial_rchproxy.Framing.Types.{stx, etx, frame_overhead}
use commercial_rchproxy.Framing.Scan.{isdigit, int}

-- What stands at the head of a stream: no frame, the first part of a frame that the stream ends
-- in, or a whole frame with so many data bytes.
pub data Head : Type 0 where
  pass : Head
  cut : Head
  whole : ℕ → Head

unfoldable pub head_of_length : Bytes → ℕ → Head
head_of_length p data_length =
    if ltb (length p) (data_length + frame_overhead)
    then cut
    else if get_or p (data_length + 10) 0 == etx
    then whole data_length
    else pass

unfoldable pub head_of_header : ℕ → Bytes → Head
unfolding head_of_length
head_of_header max_data_length p =
    if not (isdigit (slice p 1 3) && isdigit (slice p 3 6))
    then pass
    else if ltb max_data_length (int (slice p 3 6))
    then pass
    else head_of_length p (int (slice p 3 6))

unfoldable pub head_of : ℕ → Bytes → Head
unfolding head_of_header
head_of max_data_length [] = pass
head_of max_data_length (b ∷ r) =
    if not (b == stx)
    then pass
    else if ltb (length (b ∷ r)) 6
    then pass
    else head_of_header max_data_length (b ∷ r)

-- The frames of a stream with their offsets; `skip` bytes belong to the frame before.
unfoldable pub frames_in : ℕ → ℕ → ℕ → Bytes → List (ℕ × Bytes)
frames_in m skip offset [] = []
frames_in m (suc skip) offset (b ∷ r) = frames_in m skip (offset + 1) r
frames_in m zero offset (b ∷ r) = elim (head_of m (b ∷ r)) [
  | pass ↦ frames_in m 0 (offset + 1) r
  | cut ↦ []
  | whole n ↦ (offset, take (n + frame_overhead) (b ∷ r)) ∷ frames_in m (n + 10) (offset + 1) r
]

pub frames_in-skip :
    (m skip offset : ℕ) (p : Bytes)
    → frames_in m skip offset p ≡ frames_in m 0 (offset + skip) (drop skip p)
unfolding frames_in
frames_in-skip m zero offset p = ap (λ o. frames_in m 0 o p) (omega arith)
frames_in-skip m (suc skip) offset [] = refl
frames_in-skip m (suc skip) offset (b ∷ p) =
    frames_in-skip m skip (offset + 1) p ∙ ap (λ o. frames_in m 0 o (drop skip p)) (omega arith)

pub frames_in-pass :
    (m offset : ℕ) (b : ℕ) (p : Bytes)
    → head_of m (b ∷ p) ≡ pass
    → frames_in m 0 offset (b ∷ p) ≡ frames_in m 0 (offset + 1) p
unfolding frames_in
frames_in-pass m offset b p h = rw (h, frames_in)

pub frames_in-cut : (m offset : ℕ) (p : Bytes) → head_of m p ≡ cut → frames_in m 0 offset p ≡ []
unfolding frames_in
frames_in-cut m offset [] h = refl
frames_in-cut m offset (b ∷ p) h = rw (h, frames_in)

pub frames_in-whole :
    (m offset n : ℕ) (p : Bytes)
    → head_of m p ≡ whole n
    → frames_in m 0 offset p
      ≡ (offset, take (n + frame_overhead) p)
        ∷ frames_in m 0 (offset + (n + frame_overhead)) (drop (n + frame_overhead) p)
unfolding frames_in
frames_in-whole m offset n [] h = unfold head_of in cc
frames_in-whole m offset n (b ∷ p) h =
    rw (h, frames_in)
      (ap (◌∷◌ (offset, take (n + frame_overhead) (b ∷ p))) (
        frames_in-skip m (n + 10) (offset + 1) p
        ∙ ap (λ o. frames_in m 0 o (drop (n + 10) p)) (omega arith)
        ∙ ap (λ k. frames_in m 0 (offset + (n + frame_overhead)) (drop k (b ∷ p)))
            {x = suc (n + 10)} (omega arith)))

-- The next `d` bytes hold no start of a frame, whatever follows `p`.
abbrev pub Skips : ℕ → ℕ → Bytes → Type 0
Skips m d p =
    (offset : ℕ) (q : Bytes)
    → frames_in m 0 offset (p ++ q) ≡ frames_in m 0 (offset + d) (drop d p ++ q)

pub Skips-zero : (m : ℕ) (p : Bytes) → Skips m 0 p
Skips-zero m p offset q = ap (λ o. frames_in m 0 o (p ++ q)) (omega arith)

pub Skips-suc :
    (m d b : ℕ) (p : Bytes)
    → ((q : Bytes) → head_of m (b ∷ (p ++ q)) ≡ pass)
    → Skips m d p
    → Skips m (suc d) (b ∷ p)
Skips-suc m d b p h s offset q =
    frames_in-pass m offset b (p ++ q) (h q)
    ∙ s (offset + 1) q
    ∙ ap (λ o. frames_in m 0 o (drop d p ++ q)) (omega arith)
