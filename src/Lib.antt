-- ===== src/Lib.antt =====
-- Verification library for softcut-py: a Python front end to the softcut looper, its norns-style
-- facade and its OSC server.
--
-- The parts of the program, the modules that model them, and how they meet:
--
-- - Base: lists, integers, slices, dicts and methods that may raise (`Exec`), shared by all parts.
--   `Base.Exec.Keeps` has the rules for invariants of methods,
--   `Base.Exec.Gives` those for what a call gives where it returns.
-- - Platform: what the program runs on and does not implement, as one parameter `p : Platform` of every
--   definition: Python's floats `F` with their conversions, C's floats `S`, and the vendored DSP voice
--   (thirdparty/softcut-lib) as a state `Dsp` with a function for each command. Nothing is assumed of it.
-- - Sizes and Bits: `next_power_of_two` of src/softcut/__init__.py and the mask test of `Voice::set_buffer`
--   in src/softcut/_core.cpp.
-- - Buffers: `_buffer_apply` and `_buffer_extract_channel` of src/softcut/_core.cpp over
--   src/shared/buffer_ops.hpp. `long` is 64 bits wide and `int` 32: other numbers raise TypeError.
-- - Voice: the mirrors of one voice, the array it holds and its DSP voice (`struct Voice`). The two
--   fade-shape mirrors are left out: nothing modelled reads them.
-- - Engine: `Engine` of src/softcut/__init__.py over that of _core.cpp. A voice is its place in `voices`,
--   an array its place in `arrays`, so arrays are shared as they are in the program. Engine.Attributes has
--   the setters, Engine.Methods the other methods. While the engine runs a change goes to `queue`, which
--   the audio thread empties; its capacity is `queue_room`, 4095, one less than `CommandQueue::CAP`. A push
--   onto a full queue is one that stays full through the retries of `queue_apply`. Engine.OscQueue has the
--   changes of the native OSC receiver, which wait in `osc_queue`.
--   Engine.Pending has the count of flag changes, `flag_changes_pending_`, and Engine.Pending.Changes the
--   changes of an engine as a relation.
-- - Ring: the ring of src/shared/command_queue.hpp under both queues. Ring.Refines relates it to a list,
--   Ring.Drain to the engine, and Ring.Threads has each access of its two threads as a step of its own.
--   Steps see what earlier steps wrote; weaker orders of memory are left out.
-- - Mixer: `process_block` of src/shared/mixer.hpp over `processBlockMono` of the DSP voice, which is the
--   parameter `process_mono`: an input block and all arrays to the output block and the arrays after.
-- - Engine.Render: the audio callback and `render`. `prev_out` and `cur_out` have a row for each voice. The
--   arrays that go in and come out are not those that the voices hold. The loop over blocks has fuel for
--   one round more than there are frames, which is enough since a block has at least one
--   frame; `none` would be a loop that does not end.
-- - Wav: src/softcut/_wavio.py over a disk that maps a path to the file that the `wave` module parses;
--   Wav.Pcm has the conversions of samples.
-- - Norns: `NornsSoftcut` of src/softcut/norns.py, a host with one engine and the places of its two
--   buffers; Norns.Regions has its buffer and disk operations.
-- - Osc: src/softcut/osc.py, messages to methods of the host; Osc.Poll is the phase reporter, Osc.Lifecycle
--   the choice of a transport, the server from start to shutdown, and `main`. Messages are handled one
--   after another, as each transport delivers them; logging and threads are left out. Osc.Native is the
--   receiver in src/softcut/_core.cpp, from a parsed message on, and Osc.NativePoll the reporter there.
--   While the main thread waits for a quit it sees events: messages that are handled and looks at the flag;
--   `none` is a wait that the events do not end.
-- - TouchOsc: the parameter tables of clients/touchosc/build_layout.py, what the controls of its pages
--   send (TouchOsc.Pages), and the value of a control as demos/13_osc_surface.py computes it.
--   TouchOsc.Widgets and TouchOsc.Surface have the controls themselves, as the tree of the calls that the
--   script makes of the package py2tosc; what that package makes of them is left out.
-- - Datagram: the bytes of a message as demos/13_osc_surface.py encodes it. Datagram.Decode is a reader of
--   OSC 1.0, which is no part of the repository.
-- - Demos.NornsApi: the six setups of demos/12_norns_api.py as sequences of calls on the host.
-- - Demos.OscSurface: a finger on the surface of demos/13_osc_surface.py. The control that is found and
--   the datagrams that arrive are arguments.
-- - Tests: a concrete platform and runs on it.
--
-- Other loops of the program are structural recursion, on a list or a number of rounds. The loop that
-- empties a ring takes fuel too, one round more than the ring has entries. Not modelled: the sound
-- device, sockets, the C++ server under clients/softcut-osc, colours, text sizes and spacing of the
-- TouchOSC layout, the other demos and the benchmarks.
pub mod Base
pub mod Sizes
pub mod Platform
pub mod Buffers
pub mod Bits
pub mod Ring
pub mod Mixer
pub mod Voice
pub mod Engine
pub mod Wav
pub mod Norns
pub mod Osc
pub mod TouchOsc
pub mod Datagram
pub mod Demos
pub mod Tests
