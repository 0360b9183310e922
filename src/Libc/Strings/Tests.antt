-- ===== src/Libc/Strings/Tests.antt =====
-- Runs of the `str*` functions, and their theorems at concrete strings.
use zigu.Base.{◌≡◌, refl, arith, [], ◌∷◌, ◌++◌, done}
use zigu.Base.Int.{negsuc}
use zigu.Memory.{Memory}
use zigu.Memory.Sample.{codes, place}
use zigu.Libc.Strings.{strcmp, strstr}
use zigu.Libc.Strings.IsString.{IsString}
use zigu.Libc.Strings.Compare.{compare_bytes, strcmp-compare_bytes}
use zigu.Libc.Strings.Find.{find_sub, pointer_at}
use zigu.Libc.Strings.Search.{strstr-find_sub}

-- "abcab" at 100 and "abd" at 106.
abbrev text : Memory
text = place 100 (codes "abcab" ++ 0 ∷ codes "abd" ++ 0 ∷ [])

abcab : IsString text 100 (codes "abcab")
abcab = omega arith

abd : IsString text 106 (codes "abd")
abd = omega arith

strcmp_less : strcmp 9 100 106 text ≡ done (negsuc 0)
unfolding strcmp
strcmp_less = refl

strstr_miss : strstr 9 100 106 text ≡ done 0
unfolding strstr
strstr_miss = refl

strcmp-compare_bytes_example :
    strcmp 6 100 106 text ≡ done (compare_bytes (codes "abcab") (codes "abd"))
strcmp-compare_bytes_example =
    strcmp-compare_bytes 6 100 106 text (codes "abcab") (codes "abd") (omega arith) abcab abd

strstr-find_sub_example :
    strstr 6 100 106 text ≡ done (pointer_at 100 (find_sub (codes "abd") (codes "abcab")))
strstr-find_sub_example =
    strstr-find_sub 6 100 106 text (codes "abcab") (codes "abd") (omega arith) abcab abd
