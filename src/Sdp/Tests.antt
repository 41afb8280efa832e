-- ===== src/Sdp/Tests.antt =====
-- The theorems on z3_rtsp_client/z3_sdp.cpp at a description with one media.
use z3_engine.Base.{
  ℕ, ◌≡◌, refl, true, List, some, [], ◌∷◌, codes, ok, Outcome, ◌>>=◌, arith, Halts,
}
use z3_engine.Sdp.{
  atoi, add_format, set_version, SdpMessage, SdpMedia, new_sdp, new_media, get_media_count,
  get_attribute_value, z3_strdup, add_media,
}
use z3_engine.Sdp.Document.{parse_string, new_context}
use z3_engine.Sdp.Document.Ends.{parse_string-Halts}
use z3_engine.Sdp.Document.Lines.{
  SdpLine, text_of, WellFormed, fold_lines, media_lines, parse_string-lines,
  parse_string-media_count,
}
use z3_engine.Sdp.Line.{on_msg, SdpContext, parse_line, parse_media}
use z3_engine.Sdp.Line.Attribute.{parse_line-attribute, matching}
use z3_engine.Sdp.Line.Media.{parse_media-words, numbered}
use z3_engine.Text.Lines.{is_space, skip_spaces, read_string}
use z3_engine.Text.Version.{digits}
use z3_engine.Text.Tables.{same_text}

abbrev described : List SdpLine
described = (b'v', codes "0") ∷ (b't', codes "0 0") ∷ (b'm', codes "video 0 RTP/AVP 96") ∷ []

described-WellFormed : WellFormed described
unfolding is_space
described-WellFormed = (
  refl,
  (refl, tt),
  omega arith,
  (
    refl,
    (refl, (refl, (refl, tt))),
    omega arith,
    (
      refl,
      (
        refl,
        (
          refl,
          (
            refl,
            (
              refl,
              (
                refl,
                (
                  refl,
                  (
                    refl,
                    (
                      refl,
                      (
                        refl,
                        (refl, (refl, (refl, (refl, (refl, (refl, (refl, (refl, (refl, tt))))))))),
                      ),
                    ),
                  ),
                ),
              ),
            ),
          ),
        ),
      ),
      omega arith,
      tt,
    ),
  ),
)

parse_string-lines_example :
    parse_string (some (text_of described)) 40 new_sdp
    ≡ (fold_lines (new_context new_sdp) described >>= λ ctx. ok (0, ctx.msg))
parse_string-lines_example =
    parse_string-lines described 40 new_sdp described-WellFormed (omega arith)

abbrev message_of : Outcome (ℕ × SdpMessage) → SdpMessage
message_of (ok (e, s)) = s
message_of _ = new_sdp

parsed : SdpMessage
parsed = message_of (parse_string (some (text_of described)) 40 new_sdp)

parses : parse_string (some (text_of described)) 40 new_sdp ≡ ok (0, parsed)
unfolding parsed parse_string skip_spaces parse_line on_msg set_version new_sdp read_string
    new_media z3_strdup atoi digits add_format add_media
parses = refl

parse_string-media_count_example : get_media_count parsed ≡ media_lines described
parse_string-media_count_example =
    parse_string-media_count described 40 {s = parsed} described-WellFormed (omega arith) parses

parse_string-Halts_example : Halts (parse_string (some (codes "m=x")) 3 new_sdp)
parse_string-Halts_example = parse_string-Halts (some (codes "m=x")) 3 new_sdp

abbrev in_video : SdpContext
unfolding new_sdp new_media
in_video = record {
  in_media = true;
  media = some 0;
  msg = record new_sdp { medias = new_media ∷ [] };
}

parse_line-attribute_example :
    (m' : SdpMedia) × (parse_line in_video b'a' (codes "control:track1")
      ≡ ok (record in_video { msg = record new_sdp { medias = m' ∷ [] } }))
    × (get_attribute_value m' (codes "Control") (matching (codes "Control") [])
        ≡ ok (z3_strdup (codes "track1")))
unfolding is_space new_media new_sdp same_text
parse_line-attribute_example =
    parse_line-attribute in_video [] new_media b'c' (codes "ontrol") (codes "track1")
      (codes "Control") refl refl refl refl
      (refl, (refl, (refl, (refl, (refl, (refl, (refl, tt))))))) (omega arith) tt refl

parse_media-words_example :
    parse_media (codes "video 5004/2 RTP/AVP 96 97")
    ≡ ok (record new_media {
      media = some (codes "video");
      port = 5004;
      port_num = 2;
      proto = some (codes "RTP/AVP");
      fmts = codes "96" ∷ codes "97" ∷ [];
    })
unfolding is_space atoi digits
parse_media-words_example =
    parse_media-words (codes "video") (codes "5004/2") (codes "RTP/AVP") (codes "96")
      (codes "97" ∷ []) 5004 2
      (
        (omega arith, omega arith, (refl, (refl, (refl, (refl, (refl, tt)))))),
        (
          (omega arith, omega arith, (refl, (refl, (refl, (refl, (refl, (refl, tt))))))),
          (
            (omega arith, omega arith, (refl, (refl, (refl, (refl, (refl, (refl, (refl, tt)))))))),
            (
              (omega arith, omega arith, (refl, (refl, tt))),
              ((omega arith, omega arith, (refl, (refl, tt))), tt),
            ),
          ),
        ),
      )
      (numbered (codes "5004") (codes "2") (refl, tt))
