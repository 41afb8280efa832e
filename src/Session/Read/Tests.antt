-- ===== src/Session/Read/Tests.antt =====
-- The theorems on reads at concrete segments.
use z3_engine.Base.{◌≡◌, refl, false, ◌⊎◌, [], ◌∷◌, codes, ok, arith}
use z3_engine.Parser.Stream.{new_parser, reset, z3_rtsp_eintr}
use z3_engine.Parser.Stream.Lines.{lines_text}
use z3_engine.Parser.Stream.Part.{kept}
use z3_engine.Parser.Stream.Tests.{
  zeroed, reset_new, head, cseq_line, numbered, both_lines, both_read, no_length, none_of,
}
use z3_engine.Session.{Session}
use z3_engine.Session.Phase.{Phase, At, InTurn}
use z3_engine.Session.Read.{on_ev_read}
use z3_engine.Session.Read.Segments.{
  Runs, connects, reads, Runs-At, ReadsAs, on_ev_read-message, on_ev_read_part,
}
use z3_engine.Session.Respond.Tests.{world, fresh, fresh-IsFresh, opened, opens, opened_reads}

on_ev_read-message_example : ReadsAs world numbered opened.1 (
    on_ev_read world zeroed 0
      (lines_text ((b'R' ∷ head) ∷ cseq_line ∷ []) (13 ∷ 10 ∷ codes "xy"))
      new_parser
      opened.1)
on_ev_read-message_example =
    on_ev_read-message world zeroed new_parser opened.1 b'R' 2 head (codes "xy") (cseq_line ∷ [])
      numbered reset_new refl both_lines both_read no_length (omega arith)

on_ev_read_part_example :
    on_ev_read world zeroed 0 (codes "RTSP/1") new_parser opened.1
    ≡ ok (z3_rtsp_eintr, kept (codes "RTSP/1"), record opened.1 { reading = false })
on_ev_read_part_example =
    on_ev_read_part world zeroed new_parser opened.1 b'R' (codes "TSP/1") [] reset_new refl
      (none_of (codes "RTSP/1") refl) refl (omega arith)

part_read :
    on_ev_read world zeroed 0 (codes "RTSP/1") new_parser opened.1
    ≡ ok (z3_rtsp_eintr, kept (codes "RTSP/1"), record opened.1 { reading = false })
part_read =
    on_ev_read_part world zeroed new_parser opened.1 b'R' (codes "TSP/1") [] reset_new refl
      (none_of (codes "RTSP/1") refl) refl (omega arith)

part_read-Runs : Runs world fresh (kept (codes "RTSP/1")) (record opened.1 { reading = false })
part_read-Runs = reads zeroed 0 (codes "RTSP/1") (connects 0 opens) opened_reads part_read

stalled : Session
stalled = record opened.1 { reading = false }

Runs-At_example :
    (stalled.reading ≡ false)
    ⊎ ((phase : Phase) × At phase stalled
        × InTurn stalled
        × (reset (kept (codes "RTSP/1")) ≡ new_parser))
unfolding stalled
Runs-At_example = Runs-At world fresh stalled (kept (codes "RTSP/1")) fresh-IsFresh part_read-Runs
