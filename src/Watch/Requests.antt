-- ===== src/Watch/Requests.antt =====
-- Which requests an event causes after any calls of Watch (internal/controller/watch/watch.go).
use atlas_operator.Prelude.{
  ℕ, suc, ◌≡◌, refl, ap, Bool, true, false, ◌&&◌, ◌||◌, List, [], ◌∷◌, ◌++◌, arith, contains_func,
  if◌then◌else◌, inl, inr, Bool-cases, ◌==◌,
}
use atlas_operator.NameMap.{Name, name_eq, name_eq_path, lookup-insert_self}
use atlas_operator.NameMap.{lookup, lookup-insert_ne}
use atlas_operator.Watch.{
  new, handle, ResourceWatcher, read, watch, Event, create_event, update_event, delete_event,
  generic_event,
}

-- How often a name is among the requests.
abbrev pub count : Name → List Name → ℕ
count d [] = 0
count d (n ∷ ns) = if name_eq n d then suc (count d ns) else count d ns

-- The object by whose name the handler of an event looks.
abbrev pub object_of : Event → Name
object_of (create_event object) = object
object_of (update_event object_old object_new) = object_old
object_of (delete_event object) = object
object_of (generic_event object) = object

-- The calls Watch(watched, dependent), in order.
abbrev pub watch_all : ResourceWatcher → List (Name × Name) → ResourceWatcher
watch_all w [] = w
watch_all w ((watched, dependent) ∷ calls) = watch_all (watch w watched dependent) calls

-- One of the calls was Watch(a, d).
abbrev pub requested : List (Name × Name) → Name → Name → Bool
requested [] a d = false
requested ((watched, dependent) ∷ calls) a d =
    (name_eq watched a && name_eq dependent d) || requested calls a d

count-append :
    (d n : Name) (ns : List Name)
    → count d (ns ++ n ∷ []) ≡ (if name_eq n d then suc (count d ns) else count d ns)
count-append d n [] = refl
count-append d n (m ∷ ns) = ground (arith, count-append d n ns)

contains-count :
    (d : Name) (ns : List Name)
    → contains_func (λ n. name_eq n d) ns ≡ (if count d ns == 0 then false else true)
contains-count d [] = refl
contains-count d (n ∷ ns) = ground (arith, contains-count d ns)

-- The count of one pair after one call.
count-watch_same :
    (w : ResourceWatcher) (x y d : Name)
    → count d (read (watch w x y) x) ≡ (
        if name_eq y d
        then (if count d (read w x) == 0 then 1 else count d (read w x))
        else count d (read w x))
unfolding watch
count-watch_same w x y d = elim (Bool-cases (contains_func (λ n. name_eq n y) (read w x))) [
  | inl h ↦ rw h (elim (Bool-cases (name_eq y d)) [
    | inl e ↦ rw e (
        ground (
          arith,
          h,
          contains-count d (read w x),
          ap (λ z. contains_func (λ n. name_eq n z) (read w x)) (name_eq_path y d e),
        ))
    | inr e ↦ rw e
  ])
  | inr h ↦
      rw (h, lookup-insert_self)
        (ground (
          arith,
          count-append d y (read w x),
          h,
          contains-count y (read w x),
          λ (e : name_eq y d ≡ true). ap (λ z. count z (read w x)) (name_eq_path y d e),
        ))
]

count-watch_ne :
    (w : ResourceWatcher) (x y a : Name) → name_eq x a ≡ false → read (watch w x y) a ≡ read w a
unfolding watch
count-watch_ne w x y a h = elim (Bool-cases (contains_func (λ n. name_eq n y) (read w x))) [
  | inl k ↦ rw k refl
  | inr k ↦ rw k (unfold read in rw (lookup-insert_ne w x a (read w x ++ y ∷ []) h))
]

-- The count of one pair after one call: the pair of the call is there once if it was not there.
count-watch :
    (w : ResourceWatcher) (x y a d : Name)
    → count d (read (watch w x y) a) ≡ (
        if (name_eq x a && name_eq y d) && (count d (read w a) == 0) then 1 else count d (read w a))
count-watch w x y a d = elim (Bool-cases (name_eq x a)) [
  | inl e ↦ rw (e, ← name_eq_path x a e) (ground (arith, count-watch_same w x y d))
  | inr e ↦ rw (e, count-watch_ne w x y a e)
]

count-watch_all :
    (w : ResourceWatcher) (calls : List (Name × Name)) (a d : Name)
    → count d (read (watch_all w calls) a)
      ≡ (if requested calls a d && (count d (read w a) == 0) then 1 else count d (read w a))
count-watch_all w [] a d = refl
count-watch_all w ((x, y) ∷ calls) a d =
    ground (arith, count-watch w x y a d, count-watch_all (watch w x y) calls a d)

count-read-new : (a d : Name) → count d (read new a) ≡ 0
unfolding read lookup
count-read-new a d = refl

count-new :
    (calls : List (Name × Name)) (a d : Name)
    → count d (read (watch_all new calls) a) ≡ (if requested calls a d then 1 else 0)
count-new calls a d = ground (arith, count-watch_all new calls a d, count-read-new a d)

-- After any calls of Watch, an event about an object causes exactly one request for each name that
-- some call declared to depend on that object, and none for any other name. An update is about the
-- old object.
pub count-handle :
    (calls : List (Name × Name)) (e : Event) (d : Name)
    → count d (handle (watch_all new calls) e) ≡ (if requested calls (object_of e) d then 1 else 0)
unfolding handle
count-handle calls (create_event a) d = ground (arith, count-new calls a d)
count-handle calls (update_event a b) d = ground (arith, count-new calls a d)
count-handle calls (delete_event a) d = ground (arith, count-new calls a d)
count-handle calls (generic_event a) d = ground (arith, count-new calls a d)
