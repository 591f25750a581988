-- ===== src/Capture/Traffic.antt =====
-- The bytes of one direction of a stream, and the chunks that tile it.
use commercial_rchproxy.Common.{
  ℕ, ◌+◌, zero, suc, Bool, true, false, ◌&&◌, List, [], ◌∷◌, ◌++◌, Bytes, length, take, ◌==◌, ◌≡◌,
  refl, sym, ap, ◌∙◌, arith, append_assoc, length-append,
}
use commercial_rchproxy.Capture.Types.{Direction, client_to_rch, rch_to_client, CapturedChunk}
use commercial_rchproxy.Capture.Stream.{
  Traffic, tagged, same_way, only, traffic_of, offset_in, tiles,
}

pub only-append : (d : Direction) (s t : Traffic) → only d (s ++ t) ≡ only d s ++ only d t
unfolding only
only-append d [] t = refl
only-append client_to_rch ((client_to_rch, b) ∷ s) t =
    ap (λ l. b ∷ l) (only-append client_to_rch s t)
only-append client_to_rch ((rch_to_client, b) ∷ s) t = only-append client_to_rch s t
only-append rch_to_client ((client_to_rch, b) ∷ s) t = only-append rch_to_client s t
only-append rch_to_client ((rch_to_client, b) ∷ s) t =
    ap (λ l. b ∷ l) (only-append rch_to_client s t)

pub only-tagged : (d : Direction) (p : Bytes) → only d (tagged d p) ≡ p
unfolding only
only-tagged d [] = refl
only-tagged client_to_rch (b ∷ p) = ap (λ l. b ∷ l) (only-tagged client_to_rch p)
only-tagged rch_to_client (b ∷ p) = ap (λ l. b ∷ l) (only-tagged rch_to_client p)

pub only-other : (d e : Direction) (p : Bytes) → same_way d e ≡ false → only d (tagged e p) ≡ []
unfolding only
only-other d e [] other = refl
only-other client_to_rch client_to_rch (b ∷ p) other = ground (arith, other)
only-other client_to_rch rch_to_client (b ∷ p) other =
    only-other client_to_rch rch_to_client p other
only-other rch_to_client client_to_rch (b ∷ p) other =
    only-other rch_to_client client_to_rch p other
only-other rch_to_client rch_to_client (b ∷ p) other = ground (arith, other)

pub length-tagged : (d : Direction) (p : Bytes) → length (tagged d p) ≡ length p
length-tagged d [] = refl
length-tagged d (b ∷ p) = ap suc (length-tagged d p)

pub take-tagged : (d : Direction) (n : ℕ) (p : Bytes) → take n (tagged d p) ≡ tagged d (take n p)
take-tagged d zero p = refl
take-tagged d (suc n) [] = refl
take-tagged d (suc n) (b ∷ p) = ap (λ l. (d, b) ∷ l) (take-tagged d n p)

-- Every byte has one of the two directions.
pub length-only :
    (t : Traffic) → length (only client_to_rch t) + length (only rch_to_client t) ≡ length t
unfolding only
length-only [] = refl
length-only ((client_to_rch, b) ∷ t) = omega (arith, length-only t)
length-only ((rch_to_client, b) ∷ t) = omega (arith, length-only t)

pub traffic_of-append :
    (cs ds : List CapturedChunk) → traffic_of (cs ++ ds) ≡ traffic_of cs ++ traffic_of ds
unfolding traffic_of
traffic_of-append [] ds = refl
traffic_of-append (c ∷ cs) ds =
    ap (λ t. tagged c.direction c.payload ++ t) (traffic_of-append cs ds)
    ∙ sym (append_assoc (tagged c.direction c.payload) (traffic_of cs) (traffic_of ds))

-- How many bytes of a direction stand in front, one chunk further.
length-only_append :
    (d : Direction) (n : ℕ) (s t : Traffic)
    → n + length (only d (s ++ t)) ≡ n + length (only d s) + length (only d t)
length-only_append d n s t =
    let e = ap length (only-append d s t) ∙ length-append (only d s) (only d t) in omega (arith, e)

and_last : (x y z : Bool) → x && y && z ≡ true → z ≡ true
and_last x y z h = ground (arith, h)

-- A chunk at the end that continues its direction is one more tile.
pub tiles-append :
    (a b : ℕ) (cs : List CapturedChunk) (c : CapturedChunk)
    → tiles a b cs ≡ true
    → c.offset
      ≡ offset_in c.direction
          (a + length (only client_to_rch (traffic_of cs)))
          (b + length (only rch_to_client (traffic_of cs)))
    → c.byte_count ≡ length c.payload
    → tiles a b (cs ++ (c ∷ [])) ≡ true
unfolding tiles traffic_of
tiles-append a b [] c h at size = ground (arith, at, size)
tiles-append a b (d ∷ cs) c h at size =
    let s = tagged d.direction d.payload in
    let client = length-only_append client_to_rch a s (traffic_of cs) in
    let printer = length-only_append rch_to_client b s (traffic_of cs) in
    let at' : c.offset
        ≡ offset_in c.direction
            (a + length (only client_to_rch s) + length (only client_to_rch (traffic_of cs)))
            (b + length (only rch_to_client s) + length (only rch_to_client (traffic_of cs))) =
      at
      ∙ ap (λ x. offset_in c.direction x (b + length (only rch_to_client (s ++ traffic_of cs))))
          client
      ∙ ap (offset_in c.direction _) printer in
    let rest =
      tiles-append (a + length (only client_to_rch s)) (b + length (only rch_to_client s)) cs c
        (and_last (d.offset == offset_in d.direction a b) (d.byte_count == length d.payload) _ h)
        at' size in
    ground (arith, h, rest)
