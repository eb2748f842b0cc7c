-- ===== src/Tests/Url.antt =====
-- A web address, for a.c.
use mydns.Prelude.{◌≡◌, refl, [], arith, codes, some, done}
use mydns.Url.{Texts, main, is_space}
use mydns.Url.Laws.{main-address}

abbrev unset : Texts
unset = record { host = []; uri = []; buf = [] }

main-address_example :
    main (some (codes "http://ab/c")) unset
    ≡ done (record { host = codes "ab"; uri = codes "/c"; buf = codes "12DDWDFF" })
unfolding is_space
main-address_example =
    main-address b'a' (codes "b") (codes "c") unset (refl, (refl, tt)) (refl, tt) (omega arith)
