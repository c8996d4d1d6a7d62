-- ===== src/Pane/Remote.antt =====
-- The driver of a pane over SSH: `drive_channel` of crates/tepegoz-core/src/remote_pane.rs. It
-- releases the scrollback lock between the append and the send, so these are two steps, and a
-- subscriber may come between.
use tepegoz.Prelude.{ℕ, ◌≤◌, ◌≡◌, refl, false, some, List, [], ◌∷◌, ◌++◌, length}
use tepegoz.Pane.{Pane, bytes, exit, append, broadcast, push, send, subscribe}
use tepegoz.Pane.Ring.{IsValid, append_fits}
use tepegoz.Pane.Receive.{broadcast-append}

-- `ChannelMsg::Data` and `ExtendedData`: the block with the lock, then the send.
unfoldable pub store_data : Pane → List ℕ → Pane
store_data p data_bytes = record p { scrollback = append p.scrollback data_bytes }

unfoldable pub send_data : Pane → List ℕ → Pane
send_data p data_bytes = send p (bytes data_bytes)

-- `ChannelMsg::ExitStatus`
unfoldable pub exit_status : Pane → ℕ → Pane
exit_status p code = record p { exit_code = some code }

-- After the loop.
unfoldable pub driver_ends : Pane → Pane
driver_ends p = send (record p { alive = false }) (exit p.exit_code)

-- In a valid pane, a subscriber that comes between the two steps of data that fits the capacity
-- sees the data twice: at the end of its replay, and again as its first live update.
pub remote_sees_twice :
    (p : Pane) (data_bytes : List ℕ)
    → IsValid p.scrollback
    → length data_bytes ≤ p.scrollback.capacity
    → (kept : List ℕ) × ((send_data (subscribe (store_data p data_bytes)) data_bytes).receivers
        ≡ broadcast (bytes data_bytes) p.receivers
          ++ record {
            replay = kept ++ data_bytes;
            received = [];
            queue = bytes data_bytes ∷ [];
            missed = 0;
          }
            ∷ [])
unfolding store_data send_data subscribe send
remote_sees_twice p data_bytes v fits =
    let (kept, e) = append_fits p.scrollback data_bytes v fits in
    (kept, rw broadcast-append (rw e (unfold broadcast push in refl)))
