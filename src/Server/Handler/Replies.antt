-- ===== src/Server/Handler/Replies.antt =====
-- The texts of the replies.
use wifi_audio.Common.{
  ℕ, ◌+◌, ◌<◌, ◌≡◌, ◌≢◌, refl, ap, ◌∙◌, false, List, [], ◌∷◌, ◌++◌, append_assoc, Option, some,
  Bytes, arith, codes, length, length-append, ℤ, pos, ◌==◌, Outcome, ret,
}
use wifi_audio.Libc.Printf.{Arg, num, str, printf}
use wifi_audio.Rtp.Links.{Links}
use wifi_audio.Rtsp.Parser.{value_text}
use wifi_audio.Rtsp.Types.{RtspCommand, RtspHeader, response_lut, e_ok}
use wifi_audio.Server.Handler.{command}
use wifi_audio.Server.Output.{Platform, RtspHandler, print, flush, send_error}

-- The reply to a request that is refused.
abbrev pub error_text : ℕ → Bytes → ℤ → Bytes
error_text code text cseq =
    printf (codes "RTSP/1.0 %d %s\r\nCSeq: %d\r\n\r\n") (num (pos code) ∷ str text ∷ num cseq ∷ [])

abbrev status_line : ℕ → Bytes → Bytes
status_line code text = printf (codes "RTSP/1.0 %d %s\r\n") (num (pos code) ∷ str text ∷ [])

abbrev cseq_line : ℤ → Bytes
cseq_line cseq = printf (codes "CSeq: %d\r\n") (num cseq ∷ [])

error_text-lines :
    (code : ℕ) (text : Bytes) (cseq : ℤ)
    → status_line code text ++ cseq_line cseq ++ codes "\r\n" ≡ error_text code text cseq
unfolding printf
error_text-lines code text cseq = simp append_assoc

module _ {k : Links} (platform : Platform) where
  print-fits :
      (fmt : Bytes) (args : List Arg) (h : RtspHandler k)
      → length h.out + length (printf fmt args) < 1024
      → print platform fmt args h ≡ record h { out = h.out ++ printf fmt args }
  unfolding print
  print-fits fmt args h fits =
      ap (λ t. record h { out = platform.char_out h.out t }) (platform.fmt_printf-printf fmt args)
      ∙ ap (λ o. record h { out = o }) (platform.char_out_fits h.out (printf fmt args) fits)

  abbrev sent : ℕ → RtspHandler k → ℕ × RtspHandler k
  sent code h = (code, record h { out = []; replies = h.out ∷ h.replies; last_error = code })

  send_error-lines :
      (hdrs : RtspHeader) (code : ℕ) (text : Bytes) (h : RtspHandler k)
      → value_text response_lut code ≡ some text
      → length h.out + length (status_line code text) + length (cseq_line hdrs.cseq) + 2 < 1024
      → send_error platform (some hdrs) code h
        ≡ sent code (record h {
          out = h.out ++ status_line code text ++ cseq_line hdrs.cseq ++ codes "\r\n";
        })
  unfolding send_error flush printf
  send_error-lines hdrs code text h known fits =
      let line1 = status_line code text in
      let line2 = cseq_line hdrs.cseq in
      let h1 = record h { out = h.out ++ line1 } in
      let h2 = record h { out = h.out ++ line1 ++ line2 } in
      let size1 = length-append h.out line1 in
      let size2 = length-append (h.out ++ line1) line2 in
      let third : RtspHandler k → ℕ × RtspHandler k =
        λ x. sent code (print platform (codes "\r\n") [] x) in
      let second : RtspHandler k → ℕ × RtspHandler k =
        λ x. third (print platform (codes "CSeq: %d\r\n") (num hdrs.cseq ∷ []) x) in
      ap (λ t. second (print platform (codes "RTSP/1.0 %d %s\r\n") (num (pos code) ∷ str t ∷ []) h))
        (platform.luts.lut-value_text response_lut code text known)
      ∙ ap second (
          print-fits (codes "RTSP/1.0 %d %s\r\n") (num (pos code) ∷ str text ∷ []) h
            (omega (arith, fits)))
      ∙ ap third
          (print-fits (codes "CSeq: %d\r\n") (num hdrs.cseq ∷ []) h1 (omega (arith, fits, size1)))
      ∙ ap (sent code) (print-fits (codes "\r\n") [] h2 (omega (arith, fits, size1, size2)))

  command-refused :
      (cmd : RtspCommand) (uri : Option Bytes) (hdrs : RtspHeader) (code : ℕ) (h : RtspHandler k)
      → code ≢ e_ok
      → command platform cmd uri hdrs code h ≡ ret (send_error platform (some hdrs) code h)
  unfolding command
  command-refused cmd uri hdrs code h bad =
      let refused : (code == e_ok) ≡ false = ground (arith, bad) in rw (refused, command) refl

  -- A request that the parser refuses with a code of the table, of any command, when the buffer of the
  -- reply is empty and the reply has less than 1024 bytes: one reply is sent, with the code, its text
  -- and the request's CSeq and nothing else; the code is kept as the last error, and nothing else
  -- changes.
  pub command-error_text :
      (cmd : RtspCommand) (uri : Option Bytes) (hdrs : RtspHeader) (code : ℕ) (text : Bytes)
      (h : RtspHandler k)
      → code ≢ e_ok
      → value_text response_lut code ≡ some text
      → h.out ≡ []
      → length (error_text code text hdrs.cseq) < 1024
      → command platform cmd uri hdrs code h
        ≡ ret (
          code,
          record h {
            last_error = code;
            out = [];
            replies = error_text code text hdrs.cseq ∷ h.replies;
          },
        )
  command-error_text cmd uri hdrs code text h bad known empty fits =
      let whole = error_text-lines code text hdrs.cseq in
      let no_out : length h.out ≡ 0 = ap length empty in
      let size1 = length-append (status_line code text ++ cseq_line hdrs.cseq) (codes "\r\n") in
      let size2 = length-append (status_line code text) (cseq_line hdrs.cseq) in
      let size = ap length whole in
      let with_out : Bytes → Outcome (ℕ × RtspHandler k) =
        λ o. ret (sent code (record h { out = o })) in
      command-refused cmd uri hdrs code h bad
      ∙ ap ret (
          send_error-lines hdrs code text h known (omega (arith, fits, size1, size2, size, no_out)))
      ∙ ap (λ o. with_out (o ++ status_line code text ++ cseq_line hdrs.cseq ++ codes "\r\n")) empty
      ∙ ap with_out whole
