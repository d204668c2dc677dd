-- ===== src/HttpParse/Tests.antt =====
-- Runs of the HTTP parser.
use echo_ai_c.Base.{
  ◌≡◌, refl, true, false, ◌++◌, ◌<◌, ◌≤◌, length, arith, some, none, Bytes, codes, has_prefix,
  has_prefix_nocase, to_lower,
}
use echo_ai_c.HttpParse.Bounds.{parse_content_length-le}
use echo_ai_c.HttpParse.{
  max_http_body_size, Connection, new_connection, parse_content_length, parse_http, client_append,
}
use echo_ai_c.HttpParse.Grow.{client_append-takes}
use echo_ai_c.HttpParse.Split.{received_more, parse_http-received_more}

abbrev first_part : Bytes
first_part = codes "POST /a?b HTTP/1.1\r\ncontent-length: 3\r\n\r\nx"

abbrev first_read : Connection
first_read = record new_connection { received = first_part }

abbrev head_read : Connection
head_read = record first_read {
  header_len = 41;
  method = codes "POST";
  path = codes "/a";
  query = codes "b";
  headers = codes "POST /a?b HTTP/1.1\r\ncontent-length: 3\r\n\r\n";
  content_length = 3;
  headers_done = true;
}

not_yet : parse_http true first_read ≡ some (false, head_read)
unfolding parse_http has_prefix has_prefix_nocase to_lower
not_yet = refl

parse_http-received_more_example :
    parse_http true (received_more head_read (codes "yz"))
    ≡ parse_http true (received_more first_read (codes "yz"))
parse_http-received_more_example =
    parse_http-received_more true first_read head_read (codes "yz") not_yet

twice_refused : parse_content_length (codes "Content-Length: 1\r\nContent-Length: 1\r\n") ≡ none
unfolding parse_content_length has_prefix_nocase to_lower
twice_refused = refl

client_append-takes_example :
    (c' : Connection) × (client_append true first_read (codes "yz") ≡ some c')
    × (c'.received ≡ first_part ++ codes "yz")
    × (length c'.received < c'.buf_cap)
client_append-takes_example = client_append-takes first_read (codes "yz") (omega arith)

accepted : parse_content_length (codes "Content-Length: 12\r\n") ≡ some 12
unfolding parse_content_length has_prefix_nocase to_lower
accepted = refl

parse_content_length-le_example : 12 ≤ max_http_body_size
parse_content_length-le_example =
    (parse_content_length-le (codes "Content-Length: 12\r\n")).0 12 accepted
