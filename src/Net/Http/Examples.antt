-- ===== src/Net/Http/Examples.antt =====
-- kernel/src/net/http.rs at concrete responses.
use oci_kernel.Prelude.{ℕ, ◌≡◌, refl, List, [], ◌∷◌, ok, err}
use oci_kernel.Prelude.Text.{
  text, text_eq, is_empty, trim, starts_with, before_first, after_first, parse_unsigned,
}
use oci_kernel.Prelude.Words.{lacks}
use oci_kernel.Prelude.Utf8.{from_utf8}
use oci_kernel.Net.Http.Chunked.{
  chunk_size, size_text, from_str_radix, parse_hex_digits, decoded, bad_chunk, chunks,
  parse_chunked, round, round_at, sized_chunk, chunk_of, position_of,
}
use oci_kernel.Net.Http.Decoding.{
  Chunk, is_chunk, are_chunks, send, send_chunk, all_bytes, parse_chunked-send,
}
use oci_kernel.Net.Http.{
  invalid_response, parse_response, find_header_end, parse_head, split_crlf, parse_status, body_of,
  parse_headers, is_chunked_header, sized_body, find_header, eq_ignore_ascii_case, parse_header,
  status_code, to_ascii_lowercase,
}

abbrev hello : List Chunk
hello =
    record { line = text "5"; bytes = text "hello" }
    ∷ record { line = text "6;x=1"; bytes = text " world" }
    ∷ []

abbrev two_chunks : List ℕ
two_chunks = text "5\r\nhello\r\n6;x=1\r\n world\r\n0\r\n\r\n"

send-hello : send hello (13 ∷ 10 ∷ []) ≡ two_chunks
unfolding send send_chunk
send-hello = refl

parse_chunked-send_example : parse_chunked (send hello (13 ∷ 10 ∷ [])) ≡ decoded (all_bytes hello)
unfolding are_chunks is_chunk lacks chunk_size size_text from_str_radix parse_hex_digits from_utf8
    trim before_first
parse_chunked-send_example = parse_chunked-send hello (13 ∷ 10 ∷ []) refl

parse_chunked_short : parse_chunked (text "5\r\nhel") ≡ bad_chunk
unfolding parse_chunked chunks round round_at sized_chunk chunk_of position_of starts_with
    chunk_size size_text from_str_radix parse_hex_digits from_utf8 trim before_first
parse_chunked_short = refl

-- A response with a length, and one without the end of its headers.
parse_response_length :
    parse_response (Unit {0}) (text "HTTP/1.1 200 OK\r\nContent-Length: 5\r\n\r\nhello!")
    ≡ ok (record {
      status = 200;
      headers = (text "Content-Length", text "5") ∷ [];
      body = text "hello";
    })
unfolding parse_response find_header_end position_of from_utf8 parse_head split_crlf parse_status
    after_first parse_unsigned before_first body_of parse_headers is_empty is_chunked_header text_eq
    trim sized_body find_header eq_ignore_ascii_case parse_header status_code to_ascii_lowercase
    starts_with
parse_response_length = refl

parse_response_cut : parse_response (Unit {0}) (text "HTTP/1.1 200 OK\r\n") ≡ err invalid_response
unfolding parse_response find_header_end position_of starts_with
parse_response_cut = refl
