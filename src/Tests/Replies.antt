-- ===== src/Tests/Replies.antt =====
-- Texts that are printed and read.
use wifi_audio.Common.{◌≡◌, refl, [], ◌∷◌, ◌++◌, none, codes, pos, negsuc, signed32, arith, ret}
use wifi_audio.Examples.{example_platform, handler}
use wifi_audio.Libc.Printf.{printf, num}
use wifi_audio.Rtsp.Headers.{read_lines}
use wifi_audio.Rtsp.Headers.Printed.{read_lines-cseq, read_lines-session_id}
use wifi_audio.Rtsp.Types.{RtspCommand, zero_header}
use wifi_audio.Server.Handler.{command}
use wifi_audio.Server.Handler.Replies.{error_text, command-error_text}
use wifi_audio.Server.Output.{create_handler}

read_lines-cseq_example :
    read_lines 3 (printf (codes "CSeq: %d\r\n") (num (negsuc 6) ∷ []) ++ codes "\r\n") zero_header
    ≡ read_lines 2 (codes "\r\n") (record zero_header { cseq = negsuc 6 })
read_lines-cseq_example =
    read_lines-cseq 2 (negsuc 6) (codes "\r\n") zero_header (omega arith) (omega arith)

read_lines-session_id_example :
    read_lines 3
      (printf (codes "Session: %d\r\n") (num (signed32 3000000000) ∷ []) ++ codes "\r\n")
      zero_header
    ≡ read_lines 2 (codes "\r\n") (record zero_header { session_id = 3000000000 })
read_lines-session_id_example =
    read_lines-session_id 2 3000000000 (codes "\r\n") zero_header (omega arith) (omega arith)

error_text_test :
    error_text 461 (codes "Unsupported Transport") (pos 7)
    ≡ codes "RTSP/1.0 461 Unsupported Transport\r\nCSeq: 7\r\n\r\n"
unfolding printf
error_text_test = refl

command-error_text_example :
    command example_platform RtspCommand.setup none zero_header 461 handler
    ≡ ret (
      461,
      record handler {
        last_error = 461;
        out = [];
        replies = error_text 461 (codes "Unsupported Transport") (pos 0) ∷ [];
      },
    )
unfolding create_handler printf
command-error_text_example =
    command-error_text example_platform RtspCommand.setup none zero_header 461
      (codes "Unsupported Transport") handler (λ e. omega (arith, e)) refl refl (omega arith)
