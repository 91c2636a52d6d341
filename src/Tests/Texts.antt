-- ===== src/Tests/Texts.antt =====
-- Examples for the texts of hashes, codes and log lines.
use onedriver.Prelude.{decimal, path_base, in_base, some, [], ◌∷◌, ◌≡◌, refl, arith}
use onedriver.Host.{Host}
use onedriver.Hashes.{hex, base64, sha1_hash}
use onedriver.Hashes.Hex.{unhex, unhex-sha1_hash}
use onedriver.Auth.Code.{is_code_char, code_run, find_code}
use onedriver.Fields.{octal}
use onedriver.Logger.{
  last_dot, func_name, goroutine_id, before_space, parse_uint, parse_digits, spaces, pad,
}
use onedriver.Logger.Formatter.{prettify, six_digits, zeros, remove_all}
use onedriver.Main.{sigint, signal_number, unmount_status}
use onedriver.Tests.{sample_host, willing}

hex_test : hex (0 ∷ 255 ∷ 26 ∷ []) ≡ "00ff1a"
unfolding hex
hex_test = refl

base64_test : base64 (77 ∷ 97 ∷ 110 ∷ 77 ∷ []) ≡ "TWFuTQ=="
unfolding base64
base64_test = refl

find_code_test :
    find_code "https://login.live.com/oauth20_desktop.srf?code=M-1_b.c&lc=1033" ≡ "M-1_b"
unfolding find_code code_run is_code_char
find_code_test = refl

func_name_test : func_name "github.com/jstaf/onedriver/graph.(*Cache).GetID" ≡ "GetID()"
unfolding func_name last_dot
func_name_test = refl

octal_test : octal 33188 ≡ "100644"
unfolding octal in_base
octal_test = refl

goroutine_id_test : goroutine_id "goroutine 17 [running]:" ≡ some 17
unfolding goroutine_id before_space parse_uint parse_digits
goroutine_id_test = refl

pad_test : pad "abc" 5 ≡ "abc  "
unfolding pad spaces
pad_test = refl

unmount_status_test : unmount_status sigint ≡ 130
unfolding unmount_status signal_number
unmount_status_test = refl

-- A host whose sums are three bytes.
abbrev summing_host : Host
summing_host = record (sample_host willing) { sha1_sum = λ bytes. 0 ∷ 255 ∷ 26 ∷ [] }

unhex-sha1_hash_example : unhex (sha1_hash summing_host []) ≡ 0 ∷ 255 ∷ 26 ∷ []
unhex-sha1_hash_example =
    unhex-sha1_hash summing_host [] (omega arith, (omega arith, (omega arith, tt)))

prettify_test :
    prettify "goroutine 17 [running]:" (record {
      file = "/src/graph/cache.go";
      line = 41;
      function = "github.com/jstaf/onedriver/graph.NewCache";
    })
    ≡ some ("000017:graph.NewCache()", "cache.go:41")
unfolding prettify six_digits zeros remove_all goroutine_id before_space parse_uint parse_digits
    decimal path_base
prettify_test = refl
