-- ===== src/Text/Tests.antt =====
-- The theorems on the text routines and tables at concrete texts.
use z3_engine.Base.{Bytes, codes}

abbrev play_rest : Bytes
play_rest = codes " rtsp://a RTSP/1.0"

abbrev padded : Bytes
padded = codes "a  b "

abbrev version_text : Bytes
version_text = codes "RTSP/1.0 x"
