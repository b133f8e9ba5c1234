-- ===== src/Interleaved/Frames.antt =====
-- Framing (rtsp_interleaved.c and `RTSP_handle_interleaved`): what one end sends the other receives.
use is_rtsp_server.Base.{
  ℕ, suc, zero, ◌+◌, ◌*◌, ◌/◌, ◌%◌, ◌^◌, ◌<◌, ◌≡◌, refl, ap, ◌∙◌, arith, true, false, Bool-cases,
  inl, inr, List, [], ◌∷◌, ◌++◌, length, length-append, take, drop, ok, ltb, ◌==◌,
}
use is_rtsp_server.Client.{Client, begin}
use is_rtsp_server.Interleaved.{send_pkt, byte, packet_length, packet_received, handle_interleaved}

take-append {ℓ} : {A : Type ℓ} (xs ys : List A) → take (length xs) (xs ++ ys) ≡ xs
take-append [] ys = refl
take-append (x ∷ xs) ys = ap (λ zs. x ∷ zs) (take-append xs ys)

drop-append {ℓ} : {A : Type ℓ} (xs ys : List A) → drop (length xs) (xs ++ ys) ≡ ys
drop-append [] ys = refl
drop-append (x ∷ xs) ys = drop-append xs ys

length-take {ℓ} : {A : Type ℓ} (k : ℕ) (xs : List A) → k < length xs → length (take k xs) ≡ k
length-take zero xs h = refl
length-take (suc k) [] h = omega (arith, h)
length-take (suc k) (x ∷ xs) h = omega (arith, length-take k xs (omega (arith, h)))

word_bytes :
    (n : ℕ) → n < 2 ^ 16 → ((n % 2 ^ 16) / 2 ^ 8 * 2 ^ 8 + (n % 2 ^ 16) % 2 ^ 8) % 2 ^ 16 ≡ n
word_bytes n h = omega (arith, h)

drop_preamble : (n : ℕ) (a b c d : ℕ) (xs : List ℕ) → drop (n + 4) (a ∷ b ∷ c ∷ d ∷ xs) ≡ drop n xs
drop_preamble n a b c d xs = let e : n + 4 ≡ suc (suc (suc (suc n))) = omega arith in rw e

-- The preamble that the sender wrote, as the receiver reads it.
preamble :
    (channel : ℕ) (bytes rest : List ℕ)
    → length bytes < 2 ^ 16
    → packet_length (send_pkt channel bytes ++ rest) ≡ length bytes
unfolding send_pkt
preamble channel bytes rest n = word_bytes (length bytes) n

pub sent_length :
    (channel : ℕ) (bytes rest : List ℕ)
    → length (send_pkt channel bytes ++ rest) ≡ length bytes + length rest + 4
unfolding send_pkt
sent_length channel bytes rest = omega (arith, length-append bytes rest)

pub sent_mark : (channel : ℕ) (bytes rest : List ℕ) → byte (send_pkt channel bytes ++ rest) 0 ≡ 36
unfolding send_pkt
sent_mark channel bytes rest = refl

sent_channel :
    (channel : ℕ) (bytes rest : List ℕ)
    → channel < 2 ^ 8
    → byte (send_pkt channel bytes ++ rest) 1 ≡ channel
unfolding send_pkt
sent_channel channel bytes rest w = omega (arith, w)

sent_bytes :
    (channel : ℕ) (bytes rest : List ℕ)
    → take (length bytes) (drop 4 (send_pkt channel bytes ++ rest)) ≡ bytes
unfolding send_pkt
sent_bytes channel bytes rest = take-append bytes rest

sent_rest :
    (channel : ℕ) (bytes rest : List ℕ)
    → drop (length bytes + 4) (send_pkt channel bytes ++ rest) ≡ rest
unfolding send_pkt
sent_rest channel bytes rest =
    drop_preamble (length bytes) _ _ _ _ (bytes ++ rest) ∙ drop-append bytes rest

cut_length :
    (channel : ℕ) (bytes : List ℕ) (k : ℕ)
    → k < length bytes + 4
    → k < length (send_pkt channel bytes)
unfolding send_pkt
cut_length channel bytes k h = omega (arith, h)

-- The preamble of a packet that is cut off after it.
cut :
    (channel : ℕ) (bytes : List ℕ) (k : ℕ)
    → length bytes < 2 ^ 16
    → 3 < k
    → (byte (take k (send_pkt channel bytes)) 0 ≡ 36)
      × (packet_length (take k (send_pkt channel bytes)) ≡ length bytes)
unfolding send_pkt
cut channel bytes zero n h = absurd (omega (arith, h))
cut channel bytes (suc zero) n h = absurd (omega (arith, h))
cut channel bytes (suc (suc zero)) n h = absurd (omega (arith, h))
cut channel bytes (suc (suc (suc zero))) n h = absurd (omega (arith, h))
cut channel bytes (suc (suc (suc (suc k)))) n h = (refl, word_bytes (length bytes) n)

module _ {T : Type 0} where
  -- Which branch `handle_interleaved` takes, by the length of its input.
  handled :
      (c : Client T)
      → (3 < length c.input)
      → byte c.input 0 ≡ 36
      → packet_length c.input + 3 < length c.input
      → handle_interleaved c ≡ ok (packet_received c (packet_length c.input), true)
  unfolding handle_interleaved
  handled c a b d =
      let e : ltb (length c.input) 4 ≡ false = ground arith in
      let f : (byte c.input 0 == 36) ≡ true = ground arith in
      let g : ltb (length c.input) (packet_length c.input + 4) ≡ false = ground arith in
      rw (e, f, g)

  waits :
      (c : Client T)
      → (3 < length c.input → (byte c.input 0 ≡ 36) × (length c.input < packet_length c.input + 4))
      → handle_interleaved c ≡ ok (c, false)
  unfolding handle_interleaved
  waits c h = elim (Bool-cases (ltb (length c.input) 4)) [
    | inl e ↦ rw e
    | inr e ↦
        let r = h (ground arith) in
        let f : (byte c.input 0 == 36) ≡ true = ground arith in
        let g : ltb (length c.input) (packet_length c.input + 4) ≡ true = ground arith in
        rw (e, f, g)
  ]

  delivered :
      (c : Client T) (channel : ℕ) (bytes rest : List ℕ)
      → channel < 2 ^ 8
      → c.input ≡ send_pkt channel bytes ++ rest
      → packet_received c (length bytes)
        ≡ record c { received = c.received ++ (channel, bytes) ∷ []; input = rest; status = begin }
  unfolding packet_received
  delivered c channel bytes rest w e =
      let ch = ap (λ xs. byte xs 1) e ∙ sent_channel channel bytes rest w in
      let tk = ap (λ xs. take (length bytes) (drop 4 xs)) e ∙ sent_bytes channel bytes rest in
      let dr = ap (drop (length bytes + 4)) e ∙ sent_rest channel bytes rest in rw (ch, tk, dr)

  -- The two functions agree on the framing: from a packet of less than 2 ^ 16 bytes that was sent
  -- on one of the 256 channels, and whatever follows it in the input, exactly the packet is
  -- received on its channel, and what follows is left for the next request.
  pub handle_interleaved-send_pkt :
      (c : Client T) (channel : ℕ) (bytes rest : List ℕ)
      → channel < 2 ^ 8
      → length bytes < 2 ^ 16
      → c.input ≡ send_pkt channel bytes ++ rest
      → handle_interleaved c
        ≡ ok (
          record c { received = c.received ++ (channel, bytes) ∷ []; input = rest; status = begin },
          true,
        )
  unfolding packet_received
  handle_interleaved-send_pkt c channel bytes rest w n e =
      let l : packet_length c.input ≡ length bytes =
        ap packet_length e ∙ preamble channel bytes rest n in
      let m = ap length e ∙ sent_length channel bytes rest in
      handled c (omega (arith, m)) (ap (λ xs. byte xs 0) e ∙ sent_mark channel bytes rest)
        (omega (arith, m, l))
      ∙ ap (λ d. ok (d, true)) (ap (packet_received c) l ∙ delivered c channel bytes rest w e)

  -- An input that ends inside a packet of less than 2 ^ 16 bytes is kept as it is until more
  -- arrives.
  pub handle_interleaved_waits :
      (c : Client T) (channel : ℕ) (bytes : List ℕ) (k : ℕ)
      → length bytes < 2 ^ 16
      → k < length bytes + 4
      → c.input ≡ take k (send_pkt channel bytes)
      → handle_interleaved c ≡ ok (c, false)
  handle_interleaved_waits c channel bytes k n h e =
      let m = ap length e ∙ length-take k (send_pkt channel bytes) (cut_length channel bytes k h) in
      waits c (λ l.
        let p = cut channel bytes k n (omega (arith, m, l)) in
        (ap (λ xs. byte xs 0) e ∙ p.0, (omega (arith, m, ap packet_length e ∙ p.1))))
