-- ===== src/Tests/Quoting.antt =====
-- URL encoding: bytesconv.go and args.go.
use justhttp.Base.{◌≡◌, refl, [], ◌++◌, arith, codes, index_byte}
use justhttp.Bytesconv.Quote.{
  quoted_arg_byte, append_quoted_arg, append_quoted_path, decode_arg_append,
  decode_arg_append_no_plus, decode_slow,
}
use justhttp.Bytesconv.Quote.RoundTrip.{
  decode_arg_append-append_quoted_arg, decode_arg_append_no_plus-append_quoted_path,
}
use justhttp.Bytesconv.Tables.{upperhex, hex2int, join_hex}

quoted_run : append_quoted_arg [] (codes "a b&/~") ≡ codes "a+b%26%2F~"
unfolding append_quoted_arg quoted_arg_byte upperhex
quoted_run = refl

decoded_run : decode_arg_append (codes "<") (codes "a+b%2f%zz%") ≡ codes "<a b/%zz%"
unfolding decode_arg_append decode_slow hex2int join_hex index_byte
decoded_run = refl

decode_arg_append-append_quoted_arg_example :
    decode_arg_append (codes "k=") (append_quoted_arg [] (codes "a b&"))
    ≡ codes "k=" ++ codes "a b&"
decode_arg_append-append_quoted_arg_example =
    decode_arg_append-append_quoted_arg (codes "a b&") (codes "k=") (omega arith)

decode_arg_append_no_plus-append_quoted_path_example :
    decode_arg_append_no_plus [] (append_quoted_path [] (codes "/a b?+")) ≡ [] ++ codes "/a b?+"
decode_arg_append_no_plus-append_quoted_path_example =
    decode_arg_append_no_plus-append_quoted_path (codes "/a b?+") [] (omega arith)
