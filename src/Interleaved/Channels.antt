-- ===== src/Interleaved/Channels.antt =====
-- The channels of interleaved transports (`rtp_interleaved_transport`, `rtsp_interleaved_register`).
use is_rtsp_server.Base.{
  ℕ, ◌≤◌, ◌<◌, ◌≡◌, ◌≢◌, refl, arith, Bool-cases, ◌||◌, Option, none, some, List, [], ◌∷◌, leb,
  if◌then◌else◌, ◌⊎◌, inl, inr, false, ◌+◌, ap, ◌∙◌,
}
use is_rtsp_server.Client.{Client}
use is_rtsp_server.Interleaved.{register, receiver, choose, transport}

receiver-register : (b s : ℕ) (es : List (ℕ × ℕ)) → receiver b (register b s es) ≡ some s
unfolding register receiver
receiver-register b s [] = ground arith
receiver-register b s (e ∷ es) = ground (arith, receiver-register b s es)

receiver_other :
    (b s d : ℕ) (es : List (ℕ × ℕ)) → d ≢ b → receiver d (register b s es) ≡ receiver d es
unfolding register receiver
receiver_other b s d [] n = ground (arith, n)
receiver_other b s d (e ∷ es) n = ground (arith, n, receiver_other b s d es n)

bytes_pass :
    {A : Type 0} (a b : ℕ) (x y : A)
    → a < 256
    → b < 256
    → (if leb 256 a || leb 256 b then x else y) ≡ y
bytes_pass a b x y v w =
    let e : leb 256 a ≡ false = ground arith in
    let f : leb 256 b ≡ false = ground arith in rw (e, f)

module _ {T : Type 0} where
  -- What a transport on the channels `a` and `b` leaves, when `r` was the result: a refusal with
  -- the registered channels as they were, for a channel that is no byte; or the channels, from
  -- which on RTCP packets on `b` go to the RTP session, and those on other channels as before.
  pub data Arranged (c : Client T) (rtp_s a b : ℕ) (r : Client T × Option (ℕ × ℕ)) : Type 0 where
    refused :
        (256 ≤ a) ⊎ (256 ≤ b) → r.1 ≡ none → r.0.channels ≡ c.channels → Arranged c rtp_s a b r
    granted :
        a < 256
        → b < 256
        → r.1 ≡ some (a, b)
        → receiver b r.0.channels ≡ some rtp_s
        → ((d : ℕ) → d ≢ b → receiver d r.0.channels ≡ receiver d c.channels)
        → Arranged c rtp_s a b r

  arranged :
      (c : Client T) (rtp_s a b free : ℕ)
      → Arranged c rtp_s a b (
          if leb 256 a || leb 256 b then (record c { first_free_channel = free }, none) else (
            record c { first_free_channel = free; channels = register b rtp_s c.channels },
            some (a, b),
          ))
  arranged c rtp_s a b free = elim (Bool-cases (leb 256 a)) [
    | inl e ↦ rw e (refused (inl (ground arith)) refl refl)
    | inr e ↦ elim (Bool-cases (leb 256 b)) [
      | inl f ↦ rw (e, f) (refused (inr (ground arith)) refl refl)
      | inr f ↦
          rw (e, f)
            (granted (ground arith) (ground arith) refl (receiver-register b rtp_s c.channels)
              (λ d n. receiver_other b rtp_s d c.channels n))
    ]
  ]

  -- Whatever channels the client asks for or leaves open, an interleaved transport is refused
  -- exactly if one of the two is no byte, and then no channel is registered; otherwise RTCP packets
  -- on its channel go to its RTP session, and those on all other channels where they went before.
  pub transport-Arranged :
      (c : Client T) (rtp_s : ℕ) (rtp rtcp : Option ℕ)
      → let a = choose rtp c.first_free_channel in
        Arranged c rtp_s (a.0) ((choose rtcp (a.1)).0) (transport c rtp_s rtp rtcp)
  unfolding transport
  transport-Arranged c rtp_s rtp rtcp =
      let a = choose rtp c.first_free_channel in
      let b = choose rtcp (a.1) in arranged c rtp_s (a.0) (b.0) (b.1)

  -- What `transport` leaves for channels that are bytes.
  taken : Client T → ℕ → Option ℕ → Option ℕ → Client T × Option (ℕ × ℕ)
  taken c rtp_s rtp rtcp =
      let a = choose rtp c.first_free_channel in
      let b = choose rtcp (a.1) in
      (
        record c { first_free_channel = b.1; channels = register (b.0) rtp_s c.channels },
        some (a.0, b.0),
      )

  transport_bytes :
      (c : Client T) (rtp_s : ℕ) (rtp rtcp : Option ℕ)
      → (choose rtp c.first_free_channel).0 < 256
      → (choose rtcp ((choose rtp c.first_free_channel).1)).0 < 256
      → transport c rtp_s rtp rtcp ≡ taken c rtp_s rtp rtcp
  unfolding transport taken
  transport_bytes c rtp_s rtp rtcp v w = bytes_pass _ _ _ _ v w

  -- A channel that a client asks for is not counted as given out: if it asks for the RTCP channel
  -- two above the last one given out, and then leaves the channels of another RTP session open, that
  -- session is given the same channel, and the RTCP packets of the first go to it from then on.
  pub transport_takes_over :
      (c : Client T) (rtp_s rtp_s' a : ℕ)
      → a < 256
      → c.first_free_channel + 1 + 1 < 256
      → let b = c.first_free_channel + 1 + 1 in
        let r = transport c rtp_s (some a) (some b) in
        let r' = transport (r.0) rtp_s' none none in
        (receiver b r.0.channels ≡ some rtp_s)
        × (r'.1 ≡ some (c.first_free_channel + 1, b))
        × (receiver b r'.0.channels ≡ some rtp_s')
  unfolding taken
  transport_takes_over c rtp_s rtp_s' a v w =
      let b = c.first_free_channel + 1 + 1 in
      let e = transport_bytes c rtp_s (some a) (some b) v w in
      let d = (taken c rtp_s (some a) (some b)).0 in
      let f = transport_bytes d rtp_s' none none (omega (arith, w)) w in
      let g = ap (λ r. transport (r.0) rtp_s' none none) e ∙ f in
      (
        ap (λ r. receiver b r.0.channels) e ∙ receiver-register b rtp_s c.channels,
        ap (λ r. r.1) g,
        ap (λ r. receiver b r.0.channels) g ∙ receiver-register b rtp_s' d.channels,
      )
