-- ===== src/Process/Tests.antt =====
-- Runs of src/main.rs and of the start of the server at concrete inputs.
use cachebox.Prelude.{
  ◌≡◌, refl, if◌then◌else◌, Bool, true, false, Option, none, some, List, [], ◌∷◌, ◌++◌, ok, err,
}
use cachebox.Bytes.{Text, text, same_text}
use cachebox.Config.Options.{
  Config, unknown_argument, default, apply_argument, apply_arguments, flag_of, from_args,
}
use cachebox.Process.Texts.{error_text}
use cachebox.Process.Main.{Exit, exit_of, program_name, main}
use cachebox.Process.Socket.{
  Node, Change, absent, file, socket, BindError, system_error, connected, not_found, failed, System,
  IsDocumented, IsSafeEnd, bind_removed, replace, connect_first, bind_native_unix_listener,
  bind_native_unix_listener-IsSafeEnd,
}

abbrev any : Text → Option Text
any t = some t

abbrev succeeds : Config Text → Option Text
succeeds c = none

abbrev wrong : List Text
wrong = text "cachebox" ∷ text "--wrong" ∷ []

abbrev refused : Exit
refused = record {
  stdout = [];
  stderr =
      (text "cachebox: " ++ error_text (unknown_argument (text "--wrong")))
      ∷ (text "try '" ++ text "cachebox" ++ text " --help'")
      ∷ [];
  code = 2;
}

wrong-refused : main any (λ t. t) (λ t. t) succeeds wrong ≡ some refused
unfolding main from_args default apply_arguments apply_argument flag_of same_text exit_of
    program_name
wrong-refused = refl

abbrev usual_bind : Node → Change
usual_bind absent = (socket true, ok tt)
usual_bind node = (node, err (system_error 98))

-- The calls as they end without faults
abbrev usual : System
usual = record {
  exists = λ node. elim node [ absent ↦ false | _ ↦ true ];
  connect = λ node. elim node [
    | absent ↦ not_found
    | file ↦ failed
    | socket listening ↦ if listening then connected else failed
  ];
  is_socket = λ node. elim node [
    | absent ↦ err (system_error 2)
    | file ↦ ok false
    | socket listening ↦ ok true
  ];
  remove_file = λ node. elim node [ absent ↦ (absent, err (system_error 2)) | _ ↦ (absent, ok tt) ];
  bind = usual_bind;
}

-- A directory in which no more names can be made
abbrev full : System
full = record usual { bind = λ node. (node, err (system_error 28)) }

usual-sees : (node : Node) → usual.is_socket node ≡ ok true → (b : Bool) × (node ≡ socket b)
usual-sees absent e = cc
usual-sees file e = cc
usual-sees (socket b) e = (b, refl)

usual-keeps :
    (node : Node) (e : BindError)
    → (usual.remove_file node).1 ≡ err e
    → (usual.remove_file node).0 ≡ node
usual-keeps absent e h = refl
usual-keeps file e h = cc
usual-keeps (socket b) e h = cc

usual-removes :
    (node : Node) → (usual.remove_file node).1 ≡ ok tt → (usual.remove_file node).0 ≡ absent
usual-removes absent h = refl
usual-removes file h = refl
usual-removes (socket b) h = refl

usual-keeps_bound :
    (node : Node) (e : BindError) → (usual.bind node).1 ≡ err e → (usual.bind node).0 ≡ node
usual-keeps_bound absent e h = cc
usual-keeps_bound file e h = refl
usual-keeps_bound (socket b) e h = refl

usual-binds :
    (node : Node)
    → (usual.bind node).1 ≡ ok tt
    → (node ≡ absent) × ((usual.bind node).0 ≡ socket true)
usual-binds absent h = (refl, refl)
usual-binds file h = cc
usual-binds (socket b) h = cc

usual-IsDocumented : IsDocumented usual
usual-IsDocumented = record {
  sees_sockets = usual-sees;
  remove_fails = usual-keeps;
  removes = usual-removes;
  bind_fails = usual-keeps_bound;
  binds = usual-binds;
}

-- The socket that was left behind is gone, and there is no listener.
left_behind_removed :
    bind_native_unix_listener full (socket false) ≡ (absent, err (system_error 28))
unfolding bind_native_unix_listener connect_first replace bind_removed
left_behind_removed = refl

bind_native_unix_listener-IsSafeEnd_example :
    IsSafeEnd usual (socket false) (bind_native_unix_listener usual (socket false))
bind_native_unix_listener-IsSafeEnd_example =
    bind_native_unix_listener-IsSafeEnd usual (socket false) usual-IsDocumented
