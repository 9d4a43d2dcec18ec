-- ===== src/Process/Socket.antt =====
-- `bind_native_unix_listener` of src/server.rs: what stands at the path of the Unix socket before and after. What
-- the system answers to each call on the path is a parameter.
use cachebox.Prelude.{
  ℕ, ◌≡◌, refl, ◌∙◌, ◌⊎◌, inl, inr, Bool, true, false, if◌then◌else◌, Result, ok, err, Bool-cases,
  Result-cases,
}

-- What a path names; a socket is listened to or was left behind.
pub data Node : Type 0 where
  absent file : Node
  socket : Bool → Node

-- `UnixStream::connect`: a stream, the error `NotFound`, or another error.
pub data Connect : Type 0 where
  connected not_found failed : Connect

-- The two errors of the function itself, and an error of the system with its number.
pub data BindError : Type 0 where
  already_active not_a_socket : BindError
  system_error : ℕ → BindError

-- A call that changes the path: what stands there after it, and how it ends.
abbrev pub Change : Type 0
Change = Node × Result BindError (Unit {0})

-- The calls of the standard library, each on what stands at the path when it is made: `Path::exists`,
-- `UnixStream::connect`, `metadata(path)` with its `file_type().is_socket()`, `remove_file` and
-- `UnixListener::bind`.
pub record System : Type 0 where
  pub exists : Node → Bool
  pub connect : Node → Connect
  pub is_socket : Node → Result BindError Bool
  pub remove_file : Node → Change
  pub bind : Node → Change

-- What the documentation of these calls says: a call that fails changes nothing, a removal takes the name away,
-- and a listener needs a free name.
pub record IsDocumented (system : System) : Type 0 where
  pub sees_sockets :
      (node : Node) → system.is_socket node ≡ ok true → (b : Bool) × (node ≡ socket b)
  pub remove_fails :
      (node : Node) (e : BindError)
      → (system.remove_file node).1 ≡ err e
      → (system.remove_file node).0 ≡ node
  pub removes :
      (node : Node) → (system.remove_file node).1 ≡ ok tt → (system.remove_file node).0 ≡ absent
  pub bind_fails :
      (node : Node) (e : BindError) → (system.bind node).1 ≡ err e → (system.bind node).0 ≡ node
  pub binds :
      (node : Node)
      → (system.bind node).1 ≡ ok tt
      → (node ≡ absent) × ((system.bind node).0 ≡ socket true)

module _ (system : System) where
  -- `remove_file(path)?` and what follows it
  unfoldable pub bind_removed : Change → Change
  bind_removed (node, err e) = (node, err e)
  bind_removed (node, ok tt) = system.bind node

  -- The arm of another error of `connect`
  unfoldable pub replace : Node → Result BindError Bool → Change
  unfolding bind_removed
  replace node (err e) = (node, err e)
  replace node (ok false) = (node, err not_a_socket)
  replace node (ok true) = bind_removed (system.remove_file node)

  unfoldable pub connect_first : Connect → Node → Change
  unfolding replace
  connect_first connected node = (node, err already_active)
  connect_first not_found node = system.bind node
  connect_first failed node = replace node (system.is_socket node)

  unfoldable pub bind_native_unix_listener : Node → Change
  unfolding connect_first
  bind_native_unix_listener node =
      if system.exists node then connect_first (system.connect node) node else system.bind node

-- The three ways in which the function ends, by what stood at the path.
abbrev pub IsSafeEnd : System → Node → Change → Type 0
IsSafeEnd system node (after, result) =
    ((e : BindError) × (result ≡ err e) × (after ≡ node))
    ⊎ ((e : BindError) × (result ≡ err e)
        × (after ≡ absent)
        × (b : Bool) × (node ≡ socket b)
        × (system.connect node ≡ failed))
    ⊎ ((result ≡ ok tt)
        × (after ≡ socket true)
        × ((node ≡ absent) ⊎ ((b : Bool) × (node ≡ socket b) × (system.connect node ≡ failed))))

module _ (system : System) (documented : IsDocumented system) where
  bind-IsSafeEnd : (node : Node) → IsSafeEnd system node (system.bind node)
  bind-IsSafeEnd node = elim (Result-cases (system.bind node).1) [
    | inl (e, bad) ↦ inl (e, bad, documented.bind_fails node e bad)
    | inr (u, good) ↦
        let (free, listens) = documented.binds node good in inr (inr (good, listens, inl free))
  ]

  module _ (node : Node) (b : Bool) (left : node ≡ socket b)
      (failing : system.connect node ≡ failed) where
    bind_removed-IsSafeEnd :
        (after : Node) (r : Result BindError (Unit {0}))
        → ((e : BindError) → r ≡ err e → after ≡ node)
        → (r ≡ ok tt → after ≡ absent)
        → IsSafeEnd system node (bind_removed system (after, r))
    unfolding bind_removed
    bind_removed-IsSafeEnd after (err e) same gone = inl (e, refl, same e refl)
    bind_removed-IsSafeEnd after (ok tt) same gone = elim (Result-cases (system.bind after).1) [
      | inl (e, bad) ↦
          inr (inl (e, bad, documented.bind_fails after e bad ∙ gone refl, b, left, failing))
      | inr (u, good) ↦ inr (inr (good, (documented.binds after good).1, inr (b, left, failing)))
    ]

  replace-IsSafeEnd :
      (node : Node) (answer : Result BindError Bool)
      → system.is_socket node ≡ answer
      → system.connect node ≡ failed
      → IsSafeEnd system node (replace system node answer)
  unfolding replace
  replace-IsSafeEnd node (err e) asked failing = inl (e, refl, refl)
  replace-IsSafeEnd node (ok false) asked failing = inl (not_a_socket, refl, refl)
  replace-IsSafeEnd node (ok true) asked failing =
      let (b, left) = documented.sees_sockets node asked in
      bind_removed-IsSafeEnd node b left failing (system.remove_file node).0
        (system.remove_file node).1 (documented.remove_fails node) (documented.removes node)

  connect_first-IsSafeEnd :
      (node : Node) (answer : Connect)
      → system.connect node ≡ answer
      → IsSafeEnd system node (connect_first system answer node)
  unfolding connect_first
  connect_first-IsSafeEnd node connected asked = inl (already_active, refl, refl)
  connect_first-IsSafeEnd node not_found asked = bind-IsSafeEnd node
  connect_first-IsSafeEnd node failed asked =
      replace-IsSafeEnd node (system.is_socket node) refl asked

-- Where the calls on the path do what is documented, and nobody else changes it: an error leaves the path as it was,
-- but that a socket which gave no stream may have been removed before the bind failed. A listener comes about only
-- where nothing was, or a socket that gave no stream.
pub bind_native_unix_listener-IsSafeEnd :
    (system : System) (node : Node)
    → IsDocumented system
    → IsSafeEnd system node (bind_native_unix_listener system node)
unfolding bind_native_unix_listener
bind_native_unix_listener-IsSafeEnd system node documented =
    elim (Bool-cases (system.exists node)) [
      | inl there ↦
          rw there (connect_first-IsSafeEnd system documented node (system.connect node) refl)
      | inr nothing ↦ rw nothing (bind-IsSafeEnd system documented node)
    ]
