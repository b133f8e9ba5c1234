-- ===== src/Rtcp/Received.antt =====
-- The loop of `rtcp_handle` over what it receives: a sequence of packets, as RFC 3550 lays them out,
-- or any bytes.
use is_rtsp_server.Base.{
  ℕ, zero, suc, ◌+◌, ◌*◌, ◌/◌, ◌%◌, ◌^◌, ◌<◌, ◌≤◌, ◌≡◌, refl, sym, ap, ap₂, ◌∙◌, arith, Bool, true,
  ◌||◌, not, List, [], ◌∷◌, ◌++◌, map, length, length-append, length-drop, drop, ltb, ◌==◌,
  if-cases, All, Outcome, ok, fail, out_of_bounds, ◌>>=◌,
}
use is_rtsp_server.Interleaved.{byte, packet_length}
use is_rtsp_server.Rtcp.{header, handle, parse_packet}

-- A packet: the counter and the type of its header, how many words follow the header, and these.
pub record Packet : Type 0 where
  pub counter : ℕ
  pub type : ℕ
  pub words : ℕ
  pub body : List ℕ

-- Its bytes (RFC 3550, section 6.4).
abbrev pub encode : Packet → List ℕ
encode p = header p.counter p.type p.words ++ p.body

abbrev pub encode_all : List Packet → List ℕ
encode_all [] = []
encode_all (p ∷ ps) = encode p ++ encode_all ps

abbrev pub is_report : Packet → Bool
is_report p = p.type == 200 || p.type == 201

-- The fields are in their ranges, and the packet is more than a header.
pub record IsValid (p : Packet) : Type 0 where
  pub counter_fits : p.counter < 2 ^ 5
  pub words_fit : p.words < 2 ^ 16
  pub not_empty : 0 < p.words
  pub measured : length p.body ≡ 4 * p.words

-- A report is as long as the blocks that it counts.
abbrev pub HoldsBlocks : Packet → Type 0
HoldsBlocks p = is_report p ≡ true → 4 + 24 * p.counter ≤ length p.body

-- What `handle` gives for a packet.
abbrev pub seen : Packet → ℕ × ℕ
seen p = (p.type, (p.words + 1) * 4)

-- What a turn of the loop does with a packet of a size.
abbrev parsed : ℕ → List ℕ → ℕ → Outcome (List (ℕ × ℕ))
parsed n xs size =
    parse_packet xs >>= λ _. handle n (drop size xs) >>= λ ps. ok ((byte xs 1, size) ∷ ps)

one_turn :
    (n : ℕ) (xs : List ℕ)
    → 4 < length xs
    → (packet_length xs + 1) * 4 ≤ length xs
    → handle (suc n) xs ≡ parsed n xs ((packet_length xs + 1) * 4)
unfolding handle
one_turn n xs h k =
    let size = (packet_length xs + 1) * 4 in
    if-cases (λ o. o ≡ parsed n xs size) (not (ltb 4 (length xs))) _ _
      (λ e. absurd (ground (arith, e, h)))
      (λ e.
        if-cases (λ o. o ≡ parsed n xs size) (ltb (length xs) size) _ _
          (λ f. absurd (ground (arith, f, k))) (λ f. refl))

encoded_length :
    (p : Packet) (rest : List ℕ)
    → IsValid p
    → length (encode p ++ rest) ≡ (p.words + 1) * 4 + length rest
encoded_length p rest v = omega (arith, length-append p.body rest, v.measured)

word_read : (n : ℕ) → n < 2 ^ 16 → (n / 2 ^ 8 % 2 ^ 8 * 2 ^ 8 + n % 2 ^ 8) % 2 ^ 16 ≡ n
word_read n h = omega (arith, h)

drop_body {ℓ} : {A : Type ℓ} (n : ℕ) (xs ys : List A) → length xs ≡ n → drop n (xs ++ ys) ≡ ys
drop_body zero [] ys e = refl
drop_body zero (x ∷ xs) ys e = absurd (omega (arith, e))
drop_body (suc n) [] ys e = absurd (omega (arith, e))
drop_body (suc n) (x ∷ xs) ys e = drop_body n xs ys (omega (arith, e))

drop_packet :
    (p : Packet) (rest : List ℕ) → IsValid p → drop ((p.words + 1) * 4) (encode p ++ rest) ≡ rest
drop_packet p rest v =
    let e : (p.words + 1) * 4 ≡ suc (suc (suc (suc (4 * p.words)))) = omega arith in
    rw e (drop_body (4 * p.words) p.body rest v.measured)

handle_first :
    (n : ℕ) (p : Packet) (rest : List ℕ)
    → IsValid p
    → handle (suc n) (encode p ++ rest)
      ≡ (parse_packet (encode p ++ rest) >>= λ _. handle n rest >>= λ ps. ok (seen p ∷ ps))
handle_first n p rest v =
    let size : (packet_length (encode p ++ rest) + 1) * 4 ≡ (p.words + 1) * 4 =
      ap (λ m. (m + 1) * 4) (word_read p.words v.words_fit) in
    let long = encoded_length p rest v in
    one_turn n (encode p ++ rest) (let m = v.not_empty in omega (arith, long, m))
      (omega (arith, long, size))
    ∙ ap₂
        (λ s r. parse_packet (encode p ++ rest) >>= λ _. handle n r >>= λ ps. ok ((p.type, s) ∷ ps))
        size (ap (λ s. drop s (encode p ++ rest)) size ∙ drop_packet p rest v)

-- A report in the midst of a packet sequence is parsed if it is long enough.
parse-encode :
    (p : Packet) (rest : List ℕ)
    → IsValid p
    → HoldsBlocks p
    → parse_packet (encode p ++ rest) ≡ ok tt
parse-encode p rest v h =
    if-cases (λ o. o ≡ ok tt) (p.type == 200 || p.type == 201) _ _
      (λ e.
        if-cases (λ o. o ≡ ok tt)
          (ltb (length (p.body ++ rest)) (4 + 24 * ((128 + p.counter) % 2 ^ 5))) _ _
          (λ f. absurd (
            let l = length-append p.body rest in
            let k = h e in let c = v.counter_fits in ground (arith, f, l, k, c)))
          (λ f. refl))
      (λ e. refl)

-- From packets whose fields are in their ranges, none of them only a header, and whose reports are
-- as long as the blocks that they count, in bytes one after the other: `rtcp_handle` reads past
-- none, and parses all of them in their order. More turns than there are packets are enough.
pub handle-encode_all :
    (n : ℕ) (ps : List Packet)
    → length ps < n
    → All IsValid ps
    → All HoldsBlocks ps
    → handle n (encode_all ps) ≡ ok (map seen ps)
unfolding handle
handle-encode_all zero ps h v k = absurd (omega (arith, h))
handle-encode_all (suc n) [] h v k = refl
handle-encode_all (suc n) (p ∷ ps) h v k =
    handle_first n p (encode_all ps) (v.0)
    ∙ rw (
      parse-encode p (encode_all ps) (v.0) (k.0),
      handle-encode_all n ps (omega (arith, h)) (v.1) (k.1),
    )

parse-encode_overruns :
    (p : Packet) (rest : List ℕ)
    → IsValid p
    → is_report p ≡ true
    → length p.body + length rest < 4 + 24 * p.counter
    → parse_packet (encode p ++ rest) ≡ fail out_of_bounds
parse-encode_overruns p rest v r h =
    if-cases (λ o. o ≡ fail out_of_bounds) (p.type == 200 || p.type == 201) _ _
      (λ e.
        if-cases (λ o. o ≡ fail out_of_bounds)
          (ltb (length (p.body ++ rest)) (4 + 24 * ((128 + p.counter) % 2 ^ 5))) _ _ (λ f. refl)
          (λ f. absurd (
            let l = length-append p.body rest in
            let c = v.counter_fits in ground (arith, f, l, h, c))))
      (λ e. absurd (let f = sym e ∙ r in cc))

-- A report that counts more blocks than it and what follows it hold makes `rtcp_handle` read past
-- the end of what it received.
pub handle_overruns :
    (n : ℕ) (p : Packet) (rest : List ℕ)
    → IsValid p
    → is_report p ≡ true
    → length p.body + length rest < 4 + 24 * p.counter
    → handle (suc n) (encode p ++ rest) ≡ fail out_of_bounds
handle_overruns n p rest v r h =
    handle_first n p rest v
    ∙ ap (λ m. m >>= λ _. handle n rest >>= λ ps. ok (seen p ∷ ps))
        (parse-encode_overruns p rest v r h)

-- It ended, or read past the end.
abbrev pub EndsOrOverruns : Outcome (List (ℕ × ℕ)) → Type 0
EndsOrOverruns (ok ps) = Unit
EndsOrOverruns (fail f) = f ≡ out_of_bounds

parse_packet_ends :
    (xs : List ℕ) (m : Outcome (List (ℕ × ℕ))) (f : List (ℕ × ℕ) → List (ℕ × ℕ))
    → EndsOrOverruns m
    → EndsOrOverruns (parse_packet xs >>= λ _. m >>= λ ps. ok (f ps))
parse_packet_ends xs m f h =
    if-cases (λ (o : Outcome (Unit {0})). EndsOrOverruns (o >>= λ _. m >>= λ ps. ok (f ps)))
      (byte xs 1 == 200 || byte xs 1 == 201) _ _
      (λ e.
        if-cases (λ (o : Outcome (Unit {0})). EndsOrOverruns (o >>= λ _. m >>= λ ps. ok (f ps)))
          (ltb (length (drop 4 xs)) (4 + 24 * (byte xs 0 % 2 ^ 5))) _ _ (λ g. refl) (λ g. rest m h))
      (λ e. rest m h)
  where
    rest : (m : Outcome (List (ℕ × ℕ))) → EndsOrOverruns m → EndsOrOverruns (m >>= λ ps. ok (f ps))
    rest (ok ps) h = tt
    rest (fail g) h = h

-- Whatever bytes it receives, with more turns than there are bytes the loop of `rtcp_handle` ends: it
-- returns, or it reads past the end.
pub handle_ends : (n : ℕ) (xs : List ℕ) → length xs < n → EndsOrOverruns (handle n xs)
unfolding handle
handle_ends zero xs h = absurd (omega (arith, h))
handle_ends (suc n) xs h =
    let size = (packet_length xs + 1) * 4 in
    if-cases EndsOrOverruns (not (ltb 4 (length xs))) _ _ (λ e. tt)
      (λ e.
        if-cases EndsOrOverruns (ltb (length xs) size) _ _ (λ f. tt)
          (λ f.
            parse_packet_ends xs (handle n (drop size xs)) (λ ps. (byte xs 1, size) ∷ ps)
              (handle_ends n (drop size xs)
                (let l = length-drop size xs in ground (arith, e, h, l)))))
