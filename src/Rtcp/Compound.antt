-- ===== src/Rtcp/Compound.antt =====
-- The compound reports that `rtcp_pkt_sr_sdes` and `rtcp_pkt_sr_bye` make: their sizes, and what the
-- loop of `rtcp_handle` finds in them.
use is_rtsp_server.Base.{
  append_nil, ℕ, zero, suc, ◌+◌, ◌-◌, ◌*◌, ◌/◌, ◌%◌, ◌^◌, ◌<◌, ◌≡◌, refl, sym, ap, subst, ◌∙◌,
  arith, List, [], ◌∷◌, ◌++◌, length, length-append, ◌==◌, if-cases, Outcome, ok, fail,
}
use is_rtsp_server.Rtcp.{
  word, Source, Clock, set_sr, padding, zeros, pkt_sr_sdes, pkt_sr_bye, reason, handle, send_sr,
}
use is_rtsp_server.Rtcp.Received.{Packet, encode, encode_all, IsValid, handle-encode_all}

pub padding_fills : (n : ℕ) → (n + padding n) % 4 ≡ 0
padding_fills n = ground arith

pub padding_short : (n : ℕ) → padding n < 4
padding_short n = ground arith

pub length-zeros : (n : ℕ) → length (zeros n) ≡ n
length-zeros zero = refl
length-zeros (suc n) = omega (arith, length-zeros n)

-- The sender report, and the packet after it.
abbrev sender_report : Source → Clock → Packet
sender_report s c = record {
  counter = 0;
  type = 200;
  words = 6;
  body =
      word s.ssrc
      ++ word ((c.tv_sec + 2208988800) % 2 ^ 32)
      ++ word (c.tv_nsec * 2 ^ 32 % 2 ^ 64 / 1000000000 % 2 ^ 32)
      ++ word ((c.played + s.start_rtptime) % 2 ^ 32)
      ++ word s.pkt_count
      ++ word s.octet_count;
}

abbrev pub sdes_pad : Source → ℕ
sdes_pad s = padding (28 + (4 + 6 + length s.local_host))

abbrev description : Source → Packet
description s = record {
  counter = 1;
  type = 202;
  words = (4 + 6 + length s.local_host + sdes_pad s) / 4 - 1;
  body = word s.ssrc ++ 1 ∷ length s.local_host % 2 ^ 8 ∷ s.local_host ++ zeros (sdes_pad s);
}

sdes_encoded :
    (s : Source) (c : Clock) → pkt_sr_sdes s c ≡ encode_all (sender_report s c ∷ description s ∷ [])
unfolding pkt_sr_sdes set_sr
sdes_encoded s c =
    ap (λ ys. encode (sender_report s c) ++ ys) (sym (append_nil (encode (description s))))

sender_report-IsValid : (s : Source) (c : Clock) → IsValid (sender_report s c)
sender_report-IsValid s c = record {
  counter_fits = omega arith;
  words_fit = omega arith;
  not_empty = omega arith;
  measured = refl;
}

description-IsValid : (s : Source) → length s.local_host < 2 ^ 18 - 12 → IsValid (description s)
description-IsValid s h =
    let f = padding_fills (28 + (4 + 6 + length s.local_host)) in
    let g = padding_short (28 + (4 + 6 + length s.local_host)) in
    record {
      counter_fits = omega arith;
      words_fit = omega (arith, f, g, h);
      not_empty = omega (arith, f);
      measured =
          let a = length-append s.local_host (zeros (sdes_pad s)) in
          let b = length-zeros (sdes_pad s) in omega (arith, a, b, f);
    }

pub length-pkt_sr_sdes :
    (s : Source) (c : Clock) → length (pkt_sr_sdes s c) ≡ 38 + length s.local_host + sdes_pad s
unfolding pkt_sr_sdes set_sr
length-pkt_sr_sdes s c =
    let a = length-append s.local_host (zeros (sdes_pad s)) in
    let b = length-zeros (sdes_pad s) in omega (arith, a, b)

goodbye : Source → Packet
goodbye s = record {
  counter = 1;
  type = 203;
  words = 7;
  body = word s.ssrc ++ 0 ∷ reason ++ 0 ∷ 0 ∷ 0 ∷ [];
}

bye_encoded :
    (s : Source) (c : Clock) → pkt_sr_bye s c ≡ encode_all (sender_report s c ∷ goodbye s ∷ [])
unfolding pkt_sr_bye set_sr goodbye
bye_encoded s c = refl

goodbye-IsValid : (s : Source) → IsValid (goodbye s)
unfolding goodbye
goodbye-IsValid s = record {
  counter_fits = omega arith;
  words_fit = omega arith;
  not_empty = omega arith;
  measured = refl;
}

-- The loop finds a sender report of 28 bytes, and a packet of the type that is the rest.
abbrev Found : ℕ → ℕ → Outcome (List ℕ) → Type 0
Found n type (fail f) = Unit
Found n type (ok xs) = handle n xs ≡ ok ((200, 28) ∷ (type, length xs - 28) ∷ [])

sdes-Found :
    (n : ℕ) (s : Source) (c : Clock)
    → length s.local_host < 2 ^ 18 - 12
    → 2 < n
    → Found n 202 (ok (pkt_sr_sdes s c))
sdes-Found n s c h k =
    ap (handle n) (sdes_encoded s c)
    ∙ handle-encode_all n (sender_report s c ∷ description s ∷ []) (omega (arith, k))
        (sender_report-IsValid s c, (description-IsValid s h, tt))
        ((λ e. omega arith), ((λ e. absurd cc), tt))
    ∙ ap (λ m. ok ((200, 28) ∷ (202, m) ∷ []))
        (size (length s.local_host) _ (length-pkt_sr_sdes s c))
  where
    size :
        (m l : ℕ)
        → l ≡ 38 + m + padding (28 + (10 + m))
        → ((10 + m + padding (28 + (10 + m))) / 4 - 1 + 1) * 4 ≡ l - 28
    size m l e = let f = padding_fills (28 + (10 + m)) in omega (arith, e, f)

bye-Found : (n : ℕ) (s : Source) (c : Clock) → 2 < n → Found n 203 (ok (pkt_sr_bye s c))
unfolding goodbye
bye-Found n s c k =
    ap (handle n) (bye_encoded s c)
    ∙ handle-encode_all n (sender_report s c ∷ goodbye s ∷ []) (omega (arith, k))
        (sender_report-IsValid s c, (goodbye-IsValid s, tt))
        ((λ e. omega arith), ((λ e. absurd cc), tt))
    ∙ ap (λ l. ok ((200, 28) ∷ (203, l - 28) ∷ [])) (sym (ap length (bye_encoded s c)))

sent-Found :
    (n : ℕ) (s : Source) (c : Clock) (type : ℕ)
    → length s.local_host < 2 ^ 18 - 12
    → 2 < n
    → Found n type (send_sr s c type)
unfolding send_sr
sent-Found n s c type h k =
    if-cases (Found n type) (type == 202) _ _
      (λ e.
        subst (λ t. Found n t (ok (pkt_sr_sdes s c))) (ground (arith, e)) (sdes-Found n s c h k))
      (λ e.
        if-cases (Found n type) (type == 203) _ _
          (λ f.
            subst (λ t. Found n t (ok (pkt_sr_bye s c))) (ground (arith, f)) (bye-Found n s c k))
          (λ f. tt))

-- What `rtcp_send_sr` sends, for a host name of less than 2 ^ 18 - 12 bytes: the loop of `rtcp_handle`
-- splits it into a sender report of 28 bytes and a packet of the type that was asked for, which is
-- all of the rest. Three turns are enough.
pub handle-send_sr :
    (n : ℕ) (s : Source) (c : Clock) (type : ℕ) (xs : List ℕ)
    → length s.local_host < 2 ^ 18 - 12
    → 2 < n
    → send_sr s c type ≡ ok xs
    → handle n xs ≡ ok ((200, 28) ∷ (type, length xs - 28) ∷ [])
handle-send_sr n s c type xs h k e = subst (Found n type) e (sent-Found n s c type h k)
