-- ===== src/Rtsp/Lines/Printed.antt =====
-- A line that ends with CR LF, read by `getline`.
use wifi_audio.Common.{
  ℕ, ◌≤◌, ◌<◌, ◌≡◌, ◌≢◌, refl, ap, ◌∙◌, false, [], ◌∷◌, ◌++◌, some, Bytes, arith, length,
  length-append, ◌==◌, ret,
}
use wifi_audio.Libc.Strings.{c_str}
use wifi_audio.Rtsp.Lines.{crlf, Split, put_front, scan, getline}

-- No byte ends a line or a string.
abbrev pub IsText : Bytes → Type 0
IsText [] = Unit {0}
IsText (c ∷ cs) = (c ≢ 0) × (c ≢ b'\r') × IsText cs

scan-text : (c : ℕ) (s : Bytes) → c ≢ b'\r' → 2 ≤ length s → scan (c ∷ s) ≡ put_front c (scan s)
unfolding scan
scan-text c [] ne two = absurd (omega arith)
scan-text c (d ∷ []) ne two = absurd (omega arith)
scan-text c (d ∷ e ∷ more) ne two =
    let other : (c == b'\r') ≡ false = ground (arith, ne) in rw (other, scan) refl

scan-IsText :
    (line rest : Bytes)
    → IsText line
    → 0 < length rest
    → scan (line ++ (crlf ++ rest)) ≡ some (record { line = line; rest = rest })
unfolding scan
scan-IsText [] [] h some_rest = absurd (omega arith)
scan-IsText [] (e ∷ more) h some_rest = refl
scan-IsText (c ∷ cs) rest (not_nul, not_cr, h) some_rest =
    scan-text c (cs ++ (crlf ++ rest)) not_cr (omega (arith, length-append cs (crlf ++ rest)))
    ∙ ap (put_front c) (scan-IsText cs rest h some_rest)

c_str-IsText : (line : Bytes) → IsText line → c_str line ≡ line
c_str-IsText [] h = refl
c_str-IsText (c ∷ cs) (not_nul, not_cr, h) =
    let other : (c == 0) ≡ false = ground (arith, not_nul) in
    rw other (ap (λ t. c ∷ t) (c_str-IsText cs h))

getline-scan :
    (s : Bytes) (found : Split)
    → 2 ≤ length s
    → scan s ≡ some found
    → getline s ≡ ret (some (c_str found.line), found.rest)
unfolding getline
getline-scan [] found two e = absurd (omega arith)
getline-scan (c ∷ []) found two e = absurd (omega arith)
getline-scan (c ∷ d ∷ more) found two e = rw (e, getline) refl

-- A line with something behind it is found.
pub getline-IsText :
    (line rest : Bytes)
    → IsText line
    → 0 < length rest
    → getline (line ++ (crlf ++ rest)) ≡ ret (some line, rest)
getline-IsText line rest h some_rest =
    getline-scan (line ++ (crlf ++ rest)) (record { line = line; rest = rest })
      (omega (arith, length-append line (crlf ++ rest))) (scan-IsText line rest h some_rest)
    ∙ ap (λ l. ret (some l, rest)) (c_str-IsText line h)
