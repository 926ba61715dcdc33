-- ===== src/Rtsp/Headers/Printed.antt =====
-- The header lines that the replies of src/rtsp_server.cpp carry, read by the loop of `read_headers`.
use wifi_audio.Common.{
  ℕ, suc, ◌^◌, ◌<◌, ◌≡◌, refl, ap, ◌∙◌, Bool, true, false, [], ◌∷◌, ◌++◌, append_assoc, Option,
  some, none, Bytes, arith, length, codes, ℤ, signed32, low_bits, ret, ◌>>=◌, not, ◌&&◌, ◌==◌,
}
use wifi_audio.Libc.Decimal.{
  IsNumeral, IsInt, print_int-IsNumeral, strtoll-print_int, to_int-IsInt, strtok-print_int,
  signed32-IsInt, low_bits-signed32,
}
use wifi_audio.Libc.Printf.{printf, print_int, num}
use wifi_audio.Libc.Strings.{strtok}
use wifi_audio.Rtsp.Headers.{
  read_cseq, read_session, read_header, read_lines, on_line, on_word, behind_header,
}
use wifi_audio.Rtsp.Lines.Printed.{IsText, getline-IsText}
use wifi_audio.Rtsp.Lines.{crlf}
use wifi_audio.Rtsp.Transport.{get_number}
use wifi_audio.Rtsp.Types.{RtspHeader}

numeral-IsText : (s : Bytes) → IsNumeral s → IsText s
numeral-IsText [] h = tt
numeral-IsText (c ∷ cs) (low, high, others) =
    ((λ e. omega (arith, e, low)), (λ e. omega (arith, e, low)), numeral-IsText cs others)

get_number-print_int :
    (v : ℤ) → IsInt v → get_number (strtok b' ' (print_int v)).0 10 ≡ some (v, [])
unfolding get_number
get_number-print_int v h = simp (strtok-print_int v, strtoll-print_int v h, to_int-IsInt v h)

read_cseq-print_int :
    (v : ℤ) (hdr : RtspHeader)
    → IsInt v
    → read_cseq hdr (print_int v) ≡ (true, record hdr { cseq = v })
unfolding read_cseq
read_cseq-print_int v hdr h =
    ap
      (λ (o : Option (ℤ × Bytes)). elim o [
        | none ↦ (false, hdr)
        | some r ↦ (true, record hdr { cseq = r.0 })
      ])
      (get_number-print_int v h)

read_session-print_int :
    (v : ℤ) (hdr : RtspHeader)
    → IsInt v
    → read_session hdr (print_int v) ≡ (true, record hdr { session_id = low_bits 32 v })
unfolding read_session
read_session-print_int v hdr h =
    ap
      (λ (o : Option (ℤ × Bytes)). elim o [
        | none ↦ (false, hdr)
        | some r ↦ (true, record hdr { session_id = low_bits 32 r.0 })
      ])
      (get_number-print_int v h)

abbrev is_text : Bytes → Bool
is_text [] = true
is_text (c ∷ cs) = not (c == 0) && (not (c == b'\r') && is_text cs)

is_text-IsText : (s t : Bytes) → is_text s ≡ true → IsText t → IsText (s ++ t)
is_text-IsText [] t e h = h
is_text-IsText (c ∷ cs) t e h = (
  (λ z. ground (arith, e, z)),
  (λ z. ground (arith, e, z)),
  is_text-IsText cs t (ground (arith, e)) h,
)

-- A line of text with something behind it is one round of the loop.
read_lines-IsText :
    (fuel : ℕ) (line rest : Bytes) (hdr : RtspHeader)
    → IsText line
    → 0 < length rest
    → read_lines (suc fuel) (line ++ (crlf ++ rest)) hdr
      ≡ on_word (read_lines fuel rest) hdr (strtok b' ' line)
unfolding read_lines
read_lines-IsText fuel line rest hdr h some_rest =
    ap (λ o. o >>= on_line (read_lines fuel) hdr) (getline-IsText line rest h some_rest)

-- The `CSeq:` line of a reply, for any number of an `int`, with more bytes behind it: the loop over a
-- request's headers takes it as one line, goes on behind it, and has that number as its `cseq`.
pub read_lines-cseq :
    (fuel : ℕ) (v : ℤ) (rest : Bytes) (hdr : RtspHeader)
    → IsInt v
    → 0 < length rest
    → read_lines (suc fuel) (printf (codes "CSeq: %d\r\n") (num v ∷ []) ++ rest) hdr
      ≡ read_lines fuel rest (record hdr { cseq = v })
unfolding printf strtok read_header
read_lines-cseq fuel v rest hdr h some_rest =
    let line = codes "CSeq: " ++ print_int v in
    ap (λ t. read_lines (suc fuel) (codes "CSeq: " ++ t) hdr) (append_assoc (print_int v) crlf rest)
    ∙ read_lines-IsText fuel line rest hdr
        (is_text-IsText (codes "CSeq: ") (print_int v) refl
          (numeral-IsText (print_int v) (print_int-IsNumeral v)))
        some_rest
    ∙ ap (λ r. ret r >>= behind_header (read_lines fuel rest)) (read_cseq-print_int v hdr h)

-- The `Session:` line of a reply, for any session identifier of 32 bits, with more bytes behind it:
-- the loop takes it as one line, goes on behind it, and has that identifier, though it is printed as
-- an `int`.
pub read_lines-session_id :
    (fuel id : ℕ) (rest : Bytes) (hdr : RtspHeader)
    → id < 2 ^ 32
    → 0 < length rest
    → read_lines (suc fuel) (printf (codes "Session: %d\r\n") (num (signed32 id) ∷ []) ++ rest) hdr
      ≡ read_lines fuel rest (record hdr { session_id = id })
unfolding printf strtok read_header
read_lines-session_id fuel id rest hdr h some_rest =
    let v = signed32 id in
    ap (λ t. read_lines (suc fuel) (codes "Session: " ++ t) hdr)
      (append_assoc (print_int v) crlf rest)
    ∙ read_lines-IsText fuel (codes "Session: " ++ print_int v) rest hdr
        (is_text-IsText (codes "Session: ") (print_int v) refl
          (numeral-IsText (print_int v) (print_int-IsNumeral v)))
        some_rest
    ∙ ap (λ r. ret r >>= behind_header (read_lines fuel rest))
        (read_session-print_int v hdr (signed32-IsInt id h))
    ∙ ap (λ i. read_lines fuel rest (record hdr { session_id = i })) (low_bits-signed32 id h)
