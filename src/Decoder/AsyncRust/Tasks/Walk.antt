-- ===== src/Decoder/AsyncRust/Tasks/Walk.antt =====
-- What the walk over the roots and their children keeps of the nodes: no id stands twice, and a
-- parent stands before its children.
use mirrorscope.Prelude.{
  ℕ, ◌+◌, ◌≡◌, ◌≤◌, ◌<◌, arith, refl, ◌==◌, if◌then◌else◌, Bool, true, false, ◌||◌, Option, none,
  some, List, [], ◌∷◌, ◌++◌, length,
}
use mirrorscope.Decoder.AsyncRust.Tasks.{max_tasks, DecodedNode, Walked, Job}

abbrev pub has_id : ℕ → List DecodedNode → Bool
has_id x [] = false
has_id x (n ∷ ns) = if n.id == x then true else has_id x ns

pub has_id-append :
    (x : ℕ) (ns : List DecodedNode) (n : DecodedNode)
    → has_id x (ns ++ n ∷ []) ≡ (has_id x ns || n.id == x)
has_id-append x [] n = ground arith
has_id-append x (m ∷ ns) n = ground (arith, has_id-append x ns n)

abbrev pub AllDistinct : List DecodedNode → Type 0
AllDistinct [] = Unit
AllDistinct (n ∷ ns) = (has_id n.id ns ≡ false) × AllDistinct ns

pub AllDistinct-append :
    (ns : List DecodedNode) (n : DecodedNode)
    → AllDistinct ns
    → has_id n.id ns ≡ false
    → AllDistinct (ns ++ n ∷ [])
AllDistinct-append [] n d fresh = (refl, tt)
AllDistinct-append (m ∷ ns) n d fresh = (
  ground (arith, has_id-append m.id ns n, d.0, fresh),
  AllDistinct-append ns n d.1 (ground (arith, fresh)),
)

abbrev pub ParentIn : List DecodedNode → Option ℕ → Type 0
ParentIn ns none = Unit
ParentIn ns (some p) = has_id p ns ≡ true

abbrev pub AllParents : List DecodedNode → List DecodedNode → Type 0
AllParents ids [] = Unit
AllParents ids (n ∷ ns) = ParentIn ids n.parent × AllParents ids ns

pub ParentIn-append :
    (ids : List DecodedNode) (n : DecodedNode) (parent : Option ℕ)
    → ParentIn ids parent
    → ParentIn (ids ++ n ∷ []) parent
ParentIn-append ids n none h = tt
ParentIn-append ids n (some p) h = ground (arith, has_id-append p ids n, h)

pub AllParents-append :
    (ids ns : List DecodedNode) (n : DecodedNode)
    → AllParents ids ns
    → ParentIn ids n.parent
    → AllParents (ids ++ n ∷ []) (ns ++ n ∷ [])
AllParents-append ids [] n h p = (ParentIn-append ids n n.parent p, tt)
AllParents-append ids (m ∷ ns) n h p =
    (ParentIn-append ids n m.parent h.0, AllParents-append ids ns n h.1 p)

-- The nodes and the next free id, where the ids given out start at `first` and one too many may be
-- taken.
pub record IsWalked (first taken : ℕ) (s : Walked) : Type 0 where
  pub few : length s.out ≤ max_tasks
  pub in_range : s.next_id ≤ first + length s.out + taken
  pub unused : (x : ℕ) → s.next_id ≤ x → has_id x s.out ≡ false
  pub distinct : AllDistinct s.out
  pub parents : AllParents s.out s.out

-- Of the ids below the next free one, only those of `news` are new.
pub record Extends (news : ℕ → Bool) (s t : Walked) : Type 0 where
  pub grows : s.next_id ≤ t.next_id
  pub longer : length s.out ≤ length t.out
  pub keeps : (x : ℕ) → x < s.next_id → has_id x t.out ≡ (has_id x s.out || news x)

abbrev pub no_news : ℕ → Bool
no_news x = false

abbrev pub only : ℕ → ℕ → Bool
only id x = id == x

abbrev pub Reached : (first : ℕ) (news : ℕ → Bool) → Walked → Walked → Type 0
Reached first news s t = IsWalked first 0 t × Extends news s t

-- What a job needs: an id of its own, and a parent among the nodes.
pub record IsReady (job : Job) (s : Walked) : Type 0 where
  pub below : job.id < s.next_id
  pub is_new : has_id job.id s.out ≡ false
  pub parent_in : ParentIn s.out job.parent
