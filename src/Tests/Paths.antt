-- ===== src/Tests/Paths.antt =====
-- lib/src/fs/fs_util.cc, with the inputs of test/lib/fs/fs_util_test.hpp.
use pingfs.Base.{arith, ◌≡◌, refl, [], ◌∷◌, codes, ok, ◌>>=◌, list_beq, nat_eq}
use pingfs.Fs.FsUtil.{get_separator, separate_path, join, join_loop}
use pingfs.Fs.FsUtil.RoundTrip.{join-separate_path, separate_path-join}

nested_directories :
    separate_path (codes "/a/b/cdef/g.txt")
    ≡ ok (codes "/" ∷ codes "a" ∷ codes "b" ∷ codes "cdef" ∷ codes "g.txt" ∷ [])
unfolding separate_path list_beq
nested_directories = refl

join_test : join (codes "/" ∷ codes "a" ∷ codes "bcd" ∷ []) ≡ ok (codes "/a/bcd")
unfolding join join_loop list_beq
join_test = refl

join-separate_path_example :
    (separate_path (codes "/a/b/cdef/g.txt") >>= join) ≡ ok (codes "/a/b/cdef/g.txt")
join-separate_path_example = join-separate_path (codes "a/b/cdef/g.txt")

separate_path-join_example :
    (join (get_separator ∷ codes "a" ∷ codes "bcd" ∷ []) >>= separate_path)
    ≡ ok (get_separator ∷ codes "a" ∷ codes "bcd" ∷ [])
separate_path-join_example = separate_path-join (codes "a" ∷ codes "bcd" ∷ []) (omega arith) (cc)
