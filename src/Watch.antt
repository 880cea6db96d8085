-- ===== src/Watch.antt =====
-- The watcher of dependent resources (internal/controller/watch/watch.go). A watcher is its map; a
-- method that changes the map returns it. The work queue belongs to client-go: a handler returns
-- the requests that it adds, in order.
pub mod Requests
use atlas_operator.Prelude.{
  Bool, List, [], ◌∷◌, ◌++◌, Option, none, some, contains_func, if◌then◌else◌,
}
use atlas_operator.NameMap.{Name, name_eq, NameMap, lookup, insert}

-- ResourceWatcher: for each watched name the names that depend on it.
abbrev pub ResourceWatcher : Type 0
ResourceWatcher = NameMap (List Name)

-- New
abbrev pub new : ResourceWatcher
new = []

-- The slice of a missing key is empty.
abbrev or_nil : Option (List Name) → List Name
or_nil none = []
or_nil (some names) = names

-- Read
unfoldable pub read : ResourceWatcher → Name → List Name
read w watched_name = or_nil (lookup w watched_name)

-- Watch: a dependent name that is there already is not added again.
unfoldable pub watch : ResourceWatcher → Name → Name → ResourceWatcher
unfolding read
watch w watched_name dependent_name =
    let existing = read w watched_name in
    if contains_func (λ n. name_eq n dependent_name) existing
    then w
    else insert w watched_name (existing ++ dependent_name ∷ [])

-- handleEvent: a request for each dependent of the changed object.
unfoldable pub handle_event : ResourceWatcher → Name → List Name
unfolding read
handle_event w changed_object_name = read w changed_object_name

-- The events of controller-runtime, with the names of their objects.
pub data Event : Type 0 where
  create_event delete_event generic_event : Name → Event
  update_event : Name → Name → Event

-- Create, Update (by the old object), Delete and Generic.
unfoldable pub handle : ResourceWatcher → Event → List Name
unfolding handle_event
handle w (create_event object) = handle_event w object
handle w (update_event object_old object_new) = handle_event w object_old
handle w (delete_event object) = handle_event w object
handle w (generic_event object) = handle_event w object
