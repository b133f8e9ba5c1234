-- ===== src/Rtcp/Sizes.antt =====
-- The bytes of the compound reports: their number, and that each is a byte.
use is_rtsp_server.Base.{
  All-append, ℕ, zero, suc, ◌+◌, ◌-◌, ◌/◌, ◌%◌, ◌^◌, ◌<◌, ◌≡◌, refl, subst, arith, List, [], ◌∷◌,
  ◌++◌, length, ◌==◌, All, if-cases, Outcome, ok, fail,
}
use is_rtsp_server.Rtcp.{
  half, word, header, Source, Clock, set_sr, zeros, pkt_sr_sdes, pkt_sr_bye, reason, send_sr,
}
use is_rtsp_server.Rtcp.Compound.{padding_fills, padding_short, sdes_pad, length-pkt_sr_sdes}

abbrev pub IsByte : ℕ → Type 0
IsByte b = b < 2 ^ 8

All-zeros : (n : ℕ) → All IsByte (zeros n)
All-zeros zero = tt
All-zeros (suc n) = (omega arith, All-zeros n)

All-half : (n : ℕ) → All IsByte (half n)
All-half n = (omega arith, (omega arith, tt))

pub All-word : (n : ℕ) → All IsByte (word n)
All-word n = (omega arith, (omega arith, (omega arith, (omega arith, tt))))

set_sr-IsByte : (s : Source) (c : Clock) → All IsByte (set_sr s c)
unfolding set_sr
set_sr-IsByte s c = omega arith

-- As long as the text of the name and a filling of less than 4 bytes make it, in words of 32 bits.
abbrev Measured : Source → Outcome (List ℕ) → Type 0
Measured s (fail f) = Unit
Measured s (ok xs) = (length xs % 4 ≡ 0) × (length xs < 61 + length s.local_host) × All IsByte xs

sdes-Measured :
    (s : Source) (c : Clock) → All IsByte s.local_host → Measured s (ok (pkt_sr_sdes s c))
unfolding pkt_sr_sdes
sdes-Measured s c h =
    let l = length-pkt_sr_sdes s c in
    let f = padding_fills (28 + (4 + 6 + length s.local_host)) in
    let g = padding_short (28 + (4 + 6 + length s.local_host)) in
    let n = length s.local_host in
    let size = (4 + 6 + n + sdes_pad s) / 4 - 1 in
    (
      omega (arith, l, f),
      omega (arith, l, g),
      All-append IsByte (set_sr s c)
          (header 1 202 size ++ word s.ssrc ++ 1 ∷ n % 2 ^ 8 ∷ s.local_host ++ zeros (sdes_pad s))
          (set_sr-IsByte s c)
          (All-append IsByte (header 1 202 size ++ word s.ssrc ++ 1 ∷ n % 2 ^ 8 ∷ [])
            (s.local_host ++ zeros (sdes_pad s)) (omega arith)
            (All-append IsByte s.local_host (zeros (sdes_pad s)) h (All-zeros (sdes_pad s)))),
    )

All-reason : All IsByte (0 ∷ reason ++ 0 ∷ 0 ∷ 0 ∷ [])
All-reason = omega arith

bye-Measured : (s : Source) (c : Clock) → Measured s (ok (pkt_sr_bye s c))
unfolding pkt_sr_bye set_sr
bye-Measured s c = (refl, omega arith, omega arith)

sent-Measured :
    (s : Source) (c : Clock) (type : ℕ) → All IsByte s.local_host → Measured s (send_sr s c type)
unfolding send_sr
sent-Measured s c type h =
    if-cases (Measured s) (type == 202) _ _ (λ e. sdes-Measured s c h)
      (λ e. if-cases (Measured s) (type == 203) _ _ (λ f. bye-Measured s c) (λ f. tt))

-- For a host name of bytes, what `rtcp_send_sr` sends is bytes, a whole number of words of 32 bits,
-- and at most 60 bytes longer than the name.
pub send_sr_bounds :
    (s : Source) (c : Clock) (type : ℕ) (xs : List ℕ)
    → All IsByte s.local_host
    → send_sr s c type ≡ ok xs
    → (length xs % 4 ≡ 0) × (length xs < 61 + length s.local_host) × All IsByte xs
send_sr_bounds s c type xs h e = subst (Measured s) e (sent-Measured s c type h)
