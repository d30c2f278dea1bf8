-- ===== src/Overlay/World.antt =====
-- The state that the overlay operations work on: the file system, the tables of the metadata
-- database, and the number of clock readings so far.
use path_overlay.Base.{◌≡◌, ap, ℕ, suc, Bool, not, [], ◌++◌, ◌==◌, ltb, if◌then◌else◌}
use path_overlay.Wide.{Text, wide, decimal}
use path_overlay.Os.{Os, Effect, SystemTime}
use path_overlay.Action.{success, failure, ⊤, Action}
use path_overlay.Metadata.Sql.{Tables}
use path_overlay.Metadata.Store.{Db}

-- An error code that is set: `if (errorCode)`
abbrev pub is_error : ℕ → Bool
is_error code = not (code == 0)

-- Two digits, as the time is printed.
unfoldable pub two_digits : ℕ → Text
unfolding wide decimal
two_digits n = (if ltb n 10 then wide "0" else []) ++ decimal n

-- The text of `ManualTimestamp`, and of the service's `MakeTimestamp`
unfoldable pub timestamp_text : SystemTime → Text
unfolding two_digits
timestamp_text t =
    decimal t.year
    ++ (wide "-"
        ++ (two_digits t.month
            ++ (wide "-"
                ++ (two_digits t.day
                    ++ (wide "T"
                        ++ (two_digits t.hour
                            ++ (wide ":"
                                ++ (two_digits t.minute
                                    ++ (wide ":" ++ (two_digits t.second ++ wide "Z"))))))))))

module _ (os : Os) where
  pub record World : Type 0 where
    pub fs : os.Fs
    pub tables : Tables
    pub ticks : ℕ

  abbrev pub M : Type 0 → Type 0
  M A = Action World A

  -- A method of the metadata store.
  unfoldable pub on_metadata : {A : Type 0} → Db A → M A
  on_metadata m w = let (r, t) = m w.tables in (r, record w { tables = t })

  pub on_metadata-success :
      {A : Type 0} (m : Db A) {a : A} {t : Tables} (w : World)
      → m w.tables ≡ (success a, t)
      → on_metadata m w ≡ (success a, record w { tables = t })
  unfolding on_metadata
  on_metadata-success m w h = ap (λ p. (p.0, record w { tables = p.1 })) h

  -- A call that changes the file system, with its error code.
  unfoldable pub perform : Effect → M ℕ
  perform e w = let (code, fs') = os.perform e w.fs in (success code, record w { fs = fs' })

  -- `ManualTimestamp`
  unfoldable pub manual_timestamp : M Text
  unfolding timestamp_text
  manual_timestamp w =
      (success (timestamp_text (os.system_time w.ticks)), record w { ticks = suc w.ticks })

  -- `GetTickCount64`
  unfoldable pub tick_count : M ℕ
  tick_count w = (success (os.tick_count w.ticks), record w { ticks = suc w.ticks })

-- `FailFilesystem`, on an error code that is set.
unfoldable pub fail_filesystem_if : {S : Type 0} → ℕ → Text → Text → Action S ⊤
fail_filesystem_if code message path s = (
  if is_error code
      then failure (message ++ (wide ": path=" ++ (path ++ (wide " error=" ++ decimal code))))
      else success tt,
  s,
)
