-- ===== src/Fs/FsUtil.antt =====
-- lib/src/fs/fs_util.cc: the parts of a path and the path of parts. A `std::string` is its bytes.
pub mod Split
pub mod RoundTrip
use pingfs.Base.{
  ℕ, zero, suc, ◌+◌, ◌-◌, Bool, Option, none, some, List, [], ◌∷◌, ◌++◌, Bytes, length, take, drop,
  ltb, ◌==◌, if◌then◌else◌, list_beq, nat_eq, Failure, Result, ok, fail, ◌>>=◌, arith, ◌≡◌, refl,
  codes,
}
use Failure.{out_of_range, undefined, out_of_fuel}
use mathlib.Core.Option

-- `std::string::find` of one character from a position on; `none` is `npos`.
unfoldable pub find_char : ℕ → Bytes → Option ℕ
find_char c [] = none
find_char c (x ∷ s) = if x == c then some 0 else Option.map suc (find_char c s)

unfoldable pub find : ℕ → Bytes → ℕ → Option ℕ
unfolding find_char
find c s pos = Option.map (λ i. pos + i) (find_char c (drop pos s))

-- `std::string::substr`, which throws if the position is past the end.
unfoldable pub substr : Bytes → ℕ → ℕ → Result Bytes
substr s pos n = if ltb (length s) pos then fail out_of_range else ok (take n (drop pos s))

abbrev pub separator : ℕ
separator = b'/'

unfoldable pub get_separator : Bytes
get_separator = separator ∷ []

-- The `while` loop of `separate_path` and the push of the last part behind it.
unfoldable pub separate_loop : ℕ → Bytes → ℕ → List Bytes → Result (List Bytes)
separate_loop zero abs_path from_index split_path = fail out_of_fuel
separate_loop (suc fuel) abs_path from_index split_path =
    elim (find separator abs_path from_index) [
      | none ↦ substr abs_path from_index (length abs_path) >>= λ last. ok (split_path ++ last ∷ [])
      | some index ↦ substr abs_path from_index (index - from_index) >>= λ part.
          separate_loop fuel abs_path (index + 1) (split_path ++ part ∷ [])
    ]

unfoldable pub separate_path : Bytes → Result (List Bytes)
unfolding get_separator separate_loop find substr
separate_path abs_path =
    if list_beq abs_path get_separator
    then ok (get_separator ∷ [])
    else separate_loop (length abs_path + 1) abs_path 1 (get_separator ∷ [])

-- One round for each part but the last; the last is put behind the loop.
unfoldable pub join_loop : Bytes → Bytes → List Bytes → Bytes
join_loop joined p [] = joined ++ p
join_loop joined p (q ∷ rest) =
    join_loop (if list_beq p get_separator then joined ++ p else (joined ++ p) ++ get_separator) q
      rest

-- With no part `paths.size() - 1` wraps around, and `paths[0]` is read out of bounds.
unfoldable pub join : List Bytes → Result Bytes
unfolding join_loop get_separator
join [] = fail undefined
join (p ∷ rest) = ok (join_loop [] p rest)
