-- ===== src/Tests/Messages.antt =====
-- The models of src/sip_parser.cpp, src/urlcoder.cpp and src/strings.cpp on texts.
use sipp.Base.{ℕ, ◌≢◌, drop, some, ◌≡◌, refl, true, List, [], ◌∷◌, ◌++◌, arith}
use sipp.Base.Bytes.{codes, strtol}
use sipp.SipParser.{
  internal_find_header, get_call_id, get_peer_tag, tag_of, find_header_from, header_colon,
  internal_skip_lws, skip_lws_at, internal_hdrchr, hdrchr_from, internal_find_param,
  find_param_loop, out_of_fuel,
}
use sipp.SipParser.Param.{IsTag, find_param_loop-ends, get_peer_tag-IsTag}
use sipp.SipParser.Message.{
  written as written_message, internal_find_header-written, get_call_id-written,
}
use sipp.SipParser.Number.{header_number, header_number-strtol}
use sipp.SipParser.Header.{
  internal_match_header, line_has, internal_header_name, internal_compact_header_name, compact_in,
  internal_header_value, folded_value,
}
use sipp.SipParser.Join.{
  get_header, get_header_content, header_found, match_after, internal_join_headers, join_loop,
  join_value, internal_append, trim_end, join_end, drop_doubled, in_place_content,
}
use sipp.SipParser.Join.InPlace.{joined_content, get_header_content-joined_content}
use sipp.SipParser.Join.Bounds.{Fits, get_header-Fits}
use sipp.UrlCoder.{url_encode, url_decode}
use sipp.UrlCoder.RoundTrip.{url_decode-url_encode}
use sipp.Strings.Address.{written}

header_number-strtol_example : header_number (codes " +70 INVITE") ≡ strtol (codes " +70 INVITE")
header_number-strtol_example = header_number-strtol (codes " +70 INVITE")

-- Two Via headers, one of them compact.
abbrev message : List ℕ
message =
    codes "OPTIONS sip:a SIP/2.0"
    ++ (13 ∷ 10 ∷ [])
    ++ (codes "Via: x" ++ (13 ∷ 10 ∷ []))
    ++ (codes "v: y" ++ (13 ∷ 10 ∷ 13 ∷ 10 ∷ []))

get_header-Fits_example : Fits (get_header message (codes "Via:") true)
get_header-Fits_example = get_header-Fits message (codes "Via:") true

url_decode-url_encode_example : url_decode (url_encode (codes "a b%;")) ≡ codes "a b%;"
url_decode-url_encode_example = url_decode-url_encode (codes "a b%;") (ground arith)

-- A response whose Call-ID is in the short form, and upper case.
abbrev headers : List (List ℕ × List ℕ)
headers = (codes "To", codes "<sip:a@b>;tag=1") ∷ (codes "I", codes "x1@h") ∷ []

internal_find_header-written_example :
    internal_find_header
      (written_message (codes "SIP/2.0") (codes "200 OK") headers [])
      (codes "To")
      (codes "t")
      true
    ≡ some (codes "<sip:a@b>;tag=1" ++ 13 ∷ (10 ∷ codes "I: x1@h" ++ 13 ∷ (10 ∷ 13 ∷ 10 ∷ [])))
internal_find_header-written_example =
    internal_find_header-written
      (record {
        long_token = ground arith;
        short_token = ground arith;
        some_short = omega arith;
        shorter = omega arith;
      })
      (codes "SIP/2.0") (codes "200 OK") headers [] (ground arith) (ground arith)

get_call_id-written_example :
    get_call_id (written_message (codes "SIP/2.0") (codes "200 OK") headers []) ≡ codes "x1@h"
get_call_id-written_example =
    get_call_id-written (codes "SIP/2.0") (codes "200 OK") headers [] (ground arith) (ground arith)

find_param_loop-ends_example : find_param_loop 20 (codes "tag") (codes ";a=b;tag=1") ≢ out_of_fuel
find_param_loop-ends_example =
    find_param_loop-ends 20 (codes "tag") (codes ";a=b;tag=1") (ground arith)

abbrev to_message : List ℕ
to_message = codes "\r\nTo: <sip:a>;tag=1 \r\n\r\n"

to_message_tag : get_peer_tag (drop 2 to_message) ≡ some (codes "1")
unfolding get_peer_tag tag_of internal_find_header find_header_from header_colon internal_skip_lws
    skip_lws_at internal_hdrchr hdrchr_from internal_find_param find_param_loop
to_message_tag = refl

get_peer_tag-IsTag_example : IsTag (codes "1")
get_peer_tag-IsTag_example = get_peer_tag-IsTag (drop 2 to_message) (codes "1") to_message_tag

get_header_content-joined_content_example :
    get_header_content message (codes "Via:") ≡ joined_content message (codes "Via:")
get_header_content-joined_content_example = get_header_content-joined_content message (codes "Via:")

joins : get_header_content message (codes "Via:") ≡ some (codes "x, y")
unfolding get_header_content get_header internal_match_header line_has internal_header_name
    internal_compact_header_name compact_in header_found internal_header_value folded_value
    match_after internal_join_headers join_loop join_value internal_append trim_end join_end
    drop_doubled in_place_content
joins = refl
