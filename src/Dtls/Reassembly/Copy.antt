-- ===== src/Dtls/Reassembly/Copy.antt =====
-- What a write into the arena leaves at each index.
use krabitls_rs.Base.{
  ℕ, ◌+◌, ◌-◌, ◌≤◌, ◌≡◌, ◌&&◌, ltb, leb, if◌then◌else◌, List, ◌++◌, length, length-append,
  length-take, length-drop, take, drop, get_elem?, arith,
}
use krabitls_rs.Base.Index.{get_elem?-append, get_elem?-take, get_elem?-drop}
use krabitls_rs.Dtls.Reassembly.{copy_at}

pub length-copy_at :
    (at : ℕ) (bytes arena : List ℕ)
    → at + length bytes ≤ length arena
    → length (copy_at at bytes arena) ≡ length arena
unfolding copy_at
length-copy_at at bytes arena h = omega (
  arith,
  length-append (take at arena) (bytes ++ drop (at + length bytes) arena),
  length-append bytes (drop (at + length bytes) arena),
  length-take at arena,
  length-drop (at + length bytes) arena,
)

pub get_elem?-copy_at :
    (at : ℕ) (bytes arena : List ℕ) (j : ℕ)
    → at + length bytes ≤ length arena
    → get_elem? (copy_at at bytes arena) j ≡ (
        if leb at j && ltb j (at + length bytes)
        then get_elem? bytes (j - at)
        else get_elem? arena j)
unfolding copy_at
get_elem?-copy_at at bytes arena j h = ground (
  arith,
  get_elem?-append (take at arena) (bytes ++ drop (at + length bytes) arena) j,
  get_elem?-append bytes (drop (at + length bytes) arena) (j - length (take at arena)),
  length-take at arena,
  get_elem?-take at arena j,
  get_elem?-drop (at + length bytes) arena (j - length (take at arena) - length bytes),
)
