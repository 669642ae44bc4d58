-- ===== src/Uri/Samples.antt =====
-- Runs of the URI functions on small inputs, and the theorems at them.
use slang_server_extended.Base.{Bytes, [], Option, none, some, ◌≡◌, refl, arith, codes}
use slang_server_extended.Uri.Codec.{encode, decode, decode-encode}
use slang_server_extended.Uri.Layout.{
  Groups, init, from_file, get_path, from_web, str, scheme, authority, path, query, fragment,
}
use slang_server_extended.Uri.Layout.Views.{after_calls, get_path-from_file}

coded : encode (codes "a b/c") ≡ codes "a%20b/c"
unfolding encode
coded = refl

decoded : decode (codes "x%41%2f%") ≡ some (codes "xA/%")
unfolding decode
decoded = refl

thrown : decode (codes "%zz") ≡ none
unfolding decode
thrown = refl

decode-encode_example : decode (encode (codes "a b/c%")) ≡ some (codes "a b/c%")
decode-encode_example = decode-encode (codes "a b/c%") (omega arith)

-- A matcher that finds one text.
one_match : Bytes → Option Groups
one_match s = some (record {
  scheme = codes "https";
  authority = codes "a%2db";
  path = codes "p";
  query = [];
  fragment = codes "f";
})

web :
    (from_web one_match (codes "a%2db/p#f")
      ≡ some (init (codes "https") (codes "a-b") (codes "p") [] (codes "f")))
unfolding from_web one_match decode
web = refl

text : str (init (codes "https") (codes "a-b") (codes "p") [] (codes "f")) ≡ codes "https://a-b/p#f"
unfolding str init
text = refl

get_path-from_file_example :
    ((get_path (after_calls 2 (from_file (codes "/a.sv")))).0 ≡ codes "/a.sv")
    × (str (from_file (codes "/a.sv")) ≡ codes "file:///a.sv")
get_path-from_file_example = get_path-from_file 2 (codes "a.sv")
