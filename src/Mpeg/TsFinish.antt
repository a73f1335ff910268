-- ===== src/Mpeg/TsFinish.antt =====
-- src/media-server/libmpeg/source/mpeg-ts-enc.c: how a round of the loop ends.
use stream.Base.{
  ℕ, List, [], ◌∷◌, ◌++◌, ◌+◌, ◌-◌, ◌≤◌, ◌<◌, ◌≡◌, refl, sym, ◌⊎◌, inl, inr, bit_and, lt→ltb,
  le→ltb_false, Bool, true, false, length, length-append, length-drop, length-take, take, drop,
  replicate, arith, done,
}
use native.Mathlib.Decide.{dec_lt}
use mathlib.Core.List.{append_assoc}
use stream.Mpeg.Pes.{differs}
use stream.Mpeg.Adaptation.{TsAdaptationField, adaptation_filed_read}
use stream.Mpeg.TsPacket.{finish_packet}
use stream.Mpeg.TsInput.{no_adaptation}
use stream.Mpeg.TsField.{plain_byte, field_byte, byte_facts}
use stream.Mpeg.TsStuffing.{
  stuffing, length-stuffing, length-replicate, stuff_packet-added, stuff_packet-extended,
}
use stream.Mpeg.TsPayload.{sent_payload, read_stuffing, Finished, prefix_fits, write_rest}

module _ (start no_prefix : Bool) (a0 a1 a2 c : ℕ) (h tail payload : List ℕ) (bytes : ℕ)
    (g : (start ≡ true) ⊎ (h ≡ [])) (e : bytes ≡ length (sent_payload no_prefix payload))
    (some_bytes : 0 < bytes) (prefix : (no_prefix ≡ false) ⊎ ((4 ≤ bytes) × (4 ≤ length tail)))
    (some_room : 0 < length tail) where
  pub finish_plain :
      4 + length h + length tail ≡ 188
      → Finished start no_prefix a0 a1 a2 c h
          (a0 ∷ a1 ∷ a2 ∷ plain_byte c ∷ (h ++ tail))
          4
          (4 + length h)
          payload
          bytes
  unfolding finish_packet
  finish_plain r =
      let (plain, _, _, _, _, _, _) = byte_facts c in
      let send = sent_payload no_prefix payload in
      let plain_test : differs (bit_and (plain_byte c) 0x20) 0 ≡ false = rw plain refl in
      elim (dec_lt bytes (length tail)) [
        | yes d ↦
            let k = length tail - bytes in
            let at : 4 + length h - 4 ≡ length h = omega arith in
            let room = drop k tail in
            let placed =
              write_rest start no_prefix a0 a1 a2 c h tail payload bytes g e some_bytes prefix
                some_room (field_byte c) (stuffing k) room (4 + k + length h) bytes
                (omega (arith, length-stuffing k)) (omega (arith, d, length-drop k tail))
                (omega arith)
                (prefix_fits start no_prefix a0 a1 a2 c h tail payload bytes g e some_bytes prefix
                  some_room bytes (inl refl)) in
            record {
              body = field_byte c ∷ (stuffing k ++ (h ++ take bytes send));
              n = bytes;
              image =
                  rw
                    (
                      lt→ltb (4 + length h + bytes) 188 (omega (arith, d, r)),
                      at,
                      stuff_packet-added start a0 a1 a2 (plain_byte c) h tail bytes k plain_test g r
                          (omega (arith, d)) (omega (arith, d)),
                    )
                    (rw placed);
              positive = some_bytes;
              bound = omega arith;
              is_body = record {
                byte = field_byte c;
                more = stuffing k;
                adp = record no_adaptation { adaptation_field_length = k - 1 };
                image = refl;
                size =
                    omega (
                      arith,
                      r,
                      d,
                      e,
                      length-stuffing k,
                      length-take bytes send (omega (arith, e)),
                    );
                field = inr (
                  refl,
                  rw (length-stuffing k)
                      (read_stuffing k (h ++ take bytes send) (omega (arith, d))),
                );
              };
            }
        | no d ↦
            let n = length tail in
            let left : 188 - (4 + length h) ≡ n = omega (arith, r) in
            let placed =
              write_rest start no_prefix a0 a1 a2 c h tail payload bytes g e some_bytes prefix
                some_room (plain_byte c) [] tail (4 + length h) n (omega arith) refl
                (omega (arith, d))
                (prefix_fits start no_prefix a0 a1 a2 c h tail payload bytes g e some_bytes prefix
                  some_room n (inr refl)) in
            record {
              body = plain_byte c ∷ (h ++ take n send);
              n = n;
              image =
                  rw (le→ltb_false 188 (4 + length h + bytes) (omega (arith, d, r)), left, placed);
              positive = some_room;
              bound = omega (arith, d);
              is_body = record {
                byte = plain_byte c;
                more = [];
                adp = no_adaptation;
                image = refl;
                size = omega (arith, r, d, e, length-take n send (omega (arith, e, d)));
                field = inl (refl, refl);
              };
            }
      ]

  -- The same where the packet has an adaptation field of `n` bytes.
  pub finish_field :
      (n b5 : ℕ) (f : List ℕ) (adp : ℕ → TsAdaptationField)
      → differs 0 b5 ≡ true
      → n ≡ 1 + length f
      → 4 + 1 + n + length h + length tail ≡ 188
      → ((k : ℕ) (rest : List ℕ)
          → adaptation_filed_read no_adaptation ((n + k) ∷ b5 ∷ (f ++ rest)) 184
            ≡ done (n + k + 1, adp k))
      → Finished start no_prefix a0 a1 a2 c h
          (a0 ∷ a1 ∷ a2 ∷ field_byte c ∷ n ∷ b5 ∷ (f ++ (h ++ tail)))
          (4 + 1 + n)
          (4 + 1 + n + length h)
          payload
          bytes
  unfolding finish_packet
  finish_field n b5 f adp flags number r read =
      let (_, field, _, _, _, _, _) = byte_facts c in
      let send = sent_payload no_prefix payload in
      let field_test : differs (bit_and (field_byte c) 0x20) 0 ≡ true = rw field refl in
      elim (dec_lt bytes (length tail)) [
        | yes d ↦
            let k = length tail - bytes in
            let at : 4 + 1 + n + length h - (4 + 1 + n) ≡ length h = omega arith in
            let room = drop k tail in
            let fill : List ℕ = replicate k 0xFF in
            let xs = take bytes send in
            let more : List ℕ = (n + k) ∷ b5 ∷ (f ++ fill) in
            let l : length more ≡ n + k + 1 =
              omega (arith, number, length-append f fill, length-replicate k 0xFF) in
            let placed =
              write_rest start no_prefix a0 a1 a2 c h tail payload bytes g e some_bytes prefix
                some_room (field_byte c) more room (4 + 1 + n + k + length h) bytes
                (omega (arith, l)) (omega (arith, d, length-drop k tail)) (omega arith)
                (prefix_fits start no_prefix a0 a1 a2 c h tail payload bytes g e some_bytes prefix
                  some_room bytes (inl refl)) in
            record {
              body = field_byte c ∷ (more ++ (h ++ xs));
              n = bytes;
              image =
                  rw
                    (
                      lt→ltb (4 + 1 + n + length h + bytes) 188 (omega (arith, d, r)),
                      at,
                      stuff_packet-extended start a0 a1 a2 (field_byte c) n b5 f h tail bytes k
                          field_test flags number g r (omega (arith, d)),
                      sym (append_assoc f fill (h ++ room)),
                    )
                    (rw placed);
              positive = some_bytes;
              bound = omega arith;
              is_body = record {
                byte = field_byte c;
                more = more;
                adp = adp k;
                image = refl;
                size = omega (arith, r, d, e, l, length-take bytes send (omega (arith, e)));
                field =
                    inr (refl, rw (l, append_assoc f fill (h ++ xs)) (read k (fill ++ (h ++ xs))));
              };
            }
        | no d ↦
            let m = length tail in
            let xs = take m send in
            let more : List ℕ = n ∷ b5 ∷ f in
            let l : length more ≡ n + 1 = omega (arith, number) in
            let zero_more : n + 0 ≡ n = omega arith in
            let left : 188 - (4 + 1 + n + length h) ≡ m = omega (arith, r) in
            let placed =
              write_rest start no_prefix a0 a1 a2 c h tail payload bytes g e some_bytes prefix
                some_room (field_byte c) more tail (4 + 1 + n + length h) m (omega (arith, l)) refl
                (omega (arith, d))
                (prefix_fits start no_prefix a0 a1 a2 c h tail payload bytes g e some_bytes prefix
                  some_room m (inr refl)) in
            record {
              body = field_byte c ∷ (more ++ (h ++ xs));
              n = m;
              image = rw (
                le→ltb_false 188 (4 + 1 + n + length h + bytes) (omega (arith, d, r)),
                left,
                placed,
              );
              positive = some_room;
              bound = omega (arith, d);
              is_body = record {
                byte = field_byte c;
                more = more;
                adp = adp 0;
                image = refl;
                size = omega (arith, r, d, e, l, length-take m send (omega (arith, e, d)));
                field = inr (refl, rw l (rw zero_more at (read 0 (h ++ xs))));
              };
            }
      ]
