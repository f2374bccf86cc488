-- ===== src/Net/TcpConnection/Examples.antt =====
-- Tests of src/net/TCPConnection.cpp, and instances of its theorems.
use hohnor.Prelude.{◌≡◌, refl, [], ◌∷◌, ◌++◌, some, none, arith, true, false}
use hohnor.Common.Buffer.{Buffer, received}
use hohnor.Common.Buffer.Room
use hohnor.Common.Buffer.Room.{content}
use hohnor.Net.TcpConnection.{
  TcpConnection, at_least, until_delimiter, wrote, write_failed, broken_pipe, write_in_loop,
  handle_write, handle_read,
}
use hohnor.Net.TcpConnection.Kept.{stream}
use hohnor.Net.TcpConnection.Stream.{stream-write_in_loop}
use hohnor.Net.TcpConnection.Kept
use hohnor.Net.TcpConnection.Drain.{stream-handle_write}
use hohnor.Net.TcpConnection.Reading.{after_read, handle_read-at_least, handle_read-until_misses}

-- Ten bytes, of which the reader is past; "hi" is buffered, with room for two more.
abbrev two_bytes : Buffer
two_bytes = record {
  bytes = 0 ∷ 0 ∷ 0 ∷ 0 ∷ 0 ∷ 0 ∷ 0 ∷ 0 ∷ 0 ∷ 0 ∷ 104 ∷ 105 ∷ 0 ∷ 0 ∷ [];
  capacity = 14;
  reader_index = 10;
  writer_index = 12;
  last_write_bytes = 0;
}

two_bytes-IsValid : Room.IsValid two_bytes
two_bytes-IsValid = omega arith

-- A connection with a null handler and "hi" in both buffers.
abbrev waiting : TcpConnection
waiting = record {
  handler = none;
  writing = true;
  read_buffer = two_bytes;
  write_buffer = two_bytes;
  high_water_mark = 4;
  high_water_callback = some 7;
  read_complete_callback = some 1;
  write_complete_callback = some 2;
  stop_condition = some (at_least 3);
  close_callback = none;
  error_callback = none;
  queued = [];
  notices = [];
  wire = 111 ∷ [];
}

abbrev asking : TcpConnection
asking = record waiting { stop_condition = some (until_delimiter (10 ∷ [])) }

waiting-IsValid : Kept.IsValid waiting
waiting-IsValid = record { buffer = two_bytes-IsValid; busy = refl }

-- With nothing buffered, a broken pipe fails the check.
broken_pipe_aborts :
    write_in_loop
      (write_failed broken_pipe)
      (33 ∷ [])
      (record waiting { writing = false; write_buffer = record two_bytes { reader_index = 12 } })
    ≡ none
unfolding write_in_loop
broken_pipe_aborts = refl

stream-write_in_loop_example :
    (d : TcpConnection) × (write_in_loop (wrote 1) (33 ∷ 34 ∷ []) waiting ≡ some d)
    × (stream d ≡ (111 ∷ 104 ∷ 105 ∷ []) ++ 33 ∷ 34 ∷ [])
    × Kept.IsValid d
stream-write_in_loop_example =
    stream-write_in_loop (wrote 1) (33 ∷ 34 ∷ []) waiting waiting-IsValid refl (omega arith)

stream-handle_write_example :
    (d : TcpConnection) × (handle_write (wrote 2) waiting ≡ some d)
    × (stream d ≡ 111 ∷ 104 ∷ 105 ∷ [])
    × Kept.IsValid d
stream-handle_write_example =
    stream-handle_write (wrote 2) waiting waiting-IsValid (omega arith) (omega arith)

handle_read-at_least_example :
    (b : Buffer) × (content b ≡ 104 ∷ 105 ∷ 33 ∷ [])
    × (handle_read (λ d. d) (received (33 ∷ [])) waiting ≡ some (after_read waiting b 1 true))
handle_read-at_least_example = handle_read-at_least 33 [] waiting 3 1 (record {
  condition = refl;
  callback = refl;
  buffer = two_bytes-IsValid;
  delivered = omega arith;
  grows = omega arith;
})

handle_read-until_misses_example :
    (b : Buffer) × (content b ≡ 104 ∷ 105 ∷ 10 ∷ [])
    × (handle_read (λ d. d) (received (10 ∷ [])) asking ≡ some (record asking { read_buffer = b }))
handle_read-until_misses_example =
    handle_read-until_misses 10 [] asking 10 [] 1
      (record {
        condition = refl;
        callback = refl;
        buffer = two_bytes-IsValid;
        delivered = omega arith;
        grows = omega arith;
      })
      refl (omega arith)
