-- ===== src/Collections/WeakVector.antt =====
-- WeakVector and WeakCollection (module/common_collections/include). Objects and their containers are made
-- together and share an id; `alive` says whether an object still has references, so that its container's
-- weak pointer can be locked, and `attached` whether the container points to the vector.
pub mod Elements
pub mod Laws
use social_gaming_platform.Prelude.{
  ℕ, ◌+◌, ◌==◌, Bool, true, false, Option, none, some, List, [], ◌∷◌, ◌++◌, if◌then◌else◌, length,
}
use social_gaming_platform.Run.{Run, fault, ◌>>=◌, ◌>>◌}

pub record WeakVector : Type 0 where
  pub collection : List ℕ
  pub alive : ℕ → Bool
  pub attached : ℕ → Bool
  pub next_id : ℕ

abbrev pub empty_vector : WeakVector
empty_vector = record { collection = []; alive = λ n. false; attached = λ n. false; next_id = 0 }

abbrev pub set_flag : (ℕ → Bool) → ℕ → Bool → ℕ → Bool
set_flag f n b k = if n == k then b else f k

-- `data_ptr.lock()`, null for an object that is gone.
abbrev pub lock : WeakVector → ℕ → Option ℕ
lock v n = if v.alive n then some n else none

abbrev pub detach : ℕ → WeakVector → WeakVector
detach n v = record v { attached = set_flag v.attached n false }

-- find_if, over the ids of the containers.
abbrev pub find_if : (ℕ → Bool) → List ℕ → Option ℕ
find_if p [] = none
find_if p (n ∷ ns) = if p n then some n else find_if p ns

-- erase, of the position that find_if found.
unfoldable pub erase_if : (ℕ → Bool) → List ℕ → List ℕ
erase_if p [] = []
erase_if p (n ∷ ns) = if p n then ns else n ∷ erase_if p ns

abbrev pub removed_at : (ℕ → Bool) → Option ℕ → WeakVector → Bool × WeakVector
removed_at p none v = (false, v)
removed_at p (some n) v = (true, record (detach n v) { collection = erase_if p v.collection })

-- The template `remove`, by the comparison that it finds an element with.
unfoldable pub remove_where : (ℕ → Bool) → WeakVector → Bool × WeakVector
unfolding erase_if
remove_where p v = removed_at p (find_if p v.collection) v

-- `remove(this)` of a container compares the addresses of containers.
abbrev pub remove_container : ℕ → WeakVector → Bool × WeakVector
remove_container c = remove_where (λ n. n == c)

-- `remove(const std::shared_ptr<T>&)` calls itself.
unfoldable pub remove : ℕ → Run WeakVector Bool
remove n = fault

unfoldable pub disassociate : ℕ → WeakVector → WeakVector
unfolding remove_where
disassociate c v = if v.attached c then (remove_container c (detach c v)).1 else v

-- What happens when the last reference to an object goes, Deleter::operator().
unfoldable pub release : ℕ → WeakVector → WeakVector
unfolding disassociate
release n v = disassociate n (record v { alive = set_flag v.alive n false })

unfoldable pub create_container : WeakVector → ℕ × WeakVector
create_container v = (
  v.next_id,
  record v {
    alive = set_flag v.alive v.next_id true;
    attached = set_flag v.attached v.next_id true;
    next_id = v.next_id + 1;
  },
)

abbrev pub push_back : ℕ → WeakVector → WeakVector
push_back n v = record v { collection = v.collection ++ n ∷ [] }

-- The object's id stands for the pointer that is returned.
unfoldable pub emplace : WeakVector → ℕ × WeakVector
unfolding create_container
emplace v = let (n, v') = create_container v in (n, push_back n v')

abbrev pub detach_all : List ℕ → WeakVector → WeakVector
detach_all [] v = v
detach_all (n ∷ ns) v = detach_all ns (detach n v)

-- remove_all, which is also the destructor.
unfoldable pub remove_all : WeakVector → WeakVector
remove_all v = detach_all v.collection v

unfoldable pub unsafe_remove_all : WeakVector → WeakVector
unsafe_remove_all v = record v { collection = [] }

unfoldable pub size : WeakVector → ℕ
size v = length v.collection

abbrev pub locked : WeakVector → List ℕ → List (Option ℕ)
locked v [] = []
locked v (n ∷ ns) = lock v n ∷ locked v ns

-- What an iteration from `begin` to `end` meets.
unfoldable pub elements : WeakVector → List (Option ℕ)
elements v = locked v v.collection
