-- ===== src/Lib.antt =====
-- The C programs for the MyCPU SoC (4-soc/csrc), of which this library models two games, Tetris
-- and Trex, a shell, an animation and a test of the UART.
--
-- The program's parts. Tetris has a grid of 18 rows by 10 columns, a moving block and a next
-- block, shapes dealt from a shuffled bag, and a loop that reads keys from the UART, moves the
-- block, lets it fall by a timer, and draws the frame. `main` has a loop of its own beside
-- `game_loop`; both use the same operations on the grid. Trex is a program of its own: a dinosaur
-- that jumps over a cactus. The shell is another: it reads a line from the UART with a small editor,
-- cuts it into arguments in the line's own buffer, and runs a command on the memory. The animation
-- is nyancat: a script compresses its twelve frames into a header, and the program decodes them,
-- uploads them to the display and shows them in turn. All of them send frames as words of eight
-- pixels to the same display.
--
-- Which file models what, with `Common` for the shared helpers and `Tests` for concrete inputs:
--   Vga            4-soc/csrc/mmio.h: the registers of the display and `vga_pack8_pixels`, and the
--                  loop that streams a frame
--   Tetris.Types   4-soc/csrc/tetris/tetris.h: constants, enums, `grid_t` and `block_t`
--   Tetris.Shape   4-soc/csrc/tetris/tetris_shape.c: the tables and their readers
--   Tetris.Bag     4-soc/csrc/tetris/tetris_shape.c: `my_rand`, `my_srand`, `shuffle_bag`,
--                  `shape_init` and `shape_random`
--   Tetris.Grid    4-soc/csrc/tetris/tetris_grid.c: `grid_init` to `grid_row_full`
--   Tetris.Lines   4-soc/csrc/tetris/tetris_grid.c: `remove_row`, `recalc_relief` and
--                  `grid_clear_lines`
--   Tetris.Block   4-soc/csrc/tetris/tetris_grid.c: `check_cell_collision` to `grid_block_spawn`
--   Tetris.Keys    4-soc/csrc/tetris/tetris.c: the UART reads and `input_poll`
--   Tetris.Game    4-soc/csrc/tetris/tetris.c: `get_drop_interval` to `game_loop`
--   Tetris.Main    4-soc/csrc/tetris/tetris.c: `main`
--   Tetris.Draw    4-soc/csrc/tetris/tetris_draw.c: the frame buffer
--   Tetris.Digits  4-soc/csrc/tetris/tetris_draw.c: `fb_number` and `draw_init`, and the printers
--                  of signed numbers in tetris_grid.c and tetris_shape.c
--   Tetris.Print   4-soc/csrc/tetris/tetris.c: `uart_put_number` and `print_score_to_terminal`
--   Tetris.Memory  4-soc/csrc/tetris/tetris_grid.c: `my_memset` and `my_memcpy`
--   Trex           4-soc/csrc/trex/play.c and 4-soc/csrc/trex/draw.c: a round of `run_trex`
--   Trex.Start     4-soc/csrc/trex/main.c, and the start of `run_trex`
--   Shell.Runtime  4-soc/csrc/shell.c: `memcpy`, `memmove`, `memset` and `strlen`
--   Shell.Numbers  4-soc/csrc/shell.c: `str_eq`, `print_uint`, `print_hex`, `parse_hex`, `udiv` and
--                  `umod`
--   Shell.Buffer   4-soc/csrc/shell.c: `line_buf` and `line_buf_write_byte`
--   Shell.Editor   4-soc/csrc/shell.c: `uart_getc` and `read_line`
--   Shell.Args     4-soc/csrc/shell.c: `parse_args`
--   Shell.Command  4-soc/csrc/shell.c: the texts and the commands that only send
--   Shell.Main     4-soc/csrc/shell.c: `mem`, `memw`, `reboot`, `process_command` and `main`
--   Nyancat.Decoder    4-soc/csrc/nyancat.c: the decoding loops of the two upload functions
--   Nyancat.Upload     4-soc/csrc/nyancat.c: the palette, the uploads and `main`
--   Nyancat.Encoder    scripts/gen-nyancat-data.py: `compress_frame_opcode_rle` and
--                      `compress_delta_frame`
--   Nyancat.Generator  scripts/gen-nyancat-data.py: `map_color_to_palette` and `generate_header`
--   UartTest           4-soc/csrc/uart.c
-- The modules below each of these, and the others of Nyancat, hold the proofs.
--
-- How the model stands to the code. A struct is a record and a function that changes it returns
-- the new one; the statics of tetris.c are one record. Unsigned fields are native numbers whose
-- stores wrap (`u8`, `u16`, `u32`); `int` and `int8_t` are integers, and a store to `int8_t` wraps
-- (`wrap8`). An array is a list; an index out of its range reads 0, and the theorems do not rest
-- on such a read. The UART is a function from the number of a read to the value read, so what a
-- theorem says of every such function it says of every behaviour of the UART.
--
-- The shell. Its line buffer is a list of words, which are read and written as bytes too, as the
-- code does; a pointer into the line is an index. Its input is the list of the words that the reads
-- of the receive register give, and a wait for more than that has no result. The memory and the
-- devices behind the bus, the UART among them, and what the reads of the CSRs give are parameters:
-- a load may take from the input, as one from the receive register does, and a store may make the
-- UART send, but a store does not change the input. The shell's own data and its stack are taken to
-- lie where `memw` does not write, and the memory that a jump to address 0 would run is not modelled:
-- after `reboot` the result is that the shell does not come back.
--
-- The animation. A build is a constructor: the prepacked words, or the header in one of its two
-- modes, which are its arguments. A frame of the script is the list of its characters; the lists of
-- opcodes that it appends to are results. An IndexError for fewer than twelve frames is `none`, as
-- is a loop that runs out of fuel; that the script stops at a frame of another size than 4096
-- does not appear, and the theorems take that size as a hypothesis. The loop of `main` that never ends is seen for a number of
-- rounds, and what the program does is the list of its register writes.
--
-- The test of the UART. The device behind the registers is a record of operations on a state of its
-- own, and what the test relies on is the laws of a loopback: bounds on the waits for the transmitter
-- and on what is left in the receiver, and a byte that comes back within 200 polls. A delay is an
-- operation of the device. That `main` waits for ever when it is done does not appear.
--
-- Loops. `for` loops are structural. `grid_clear_lines` has fuel 37: a row is passed at most 18
-- times and removed at most 18 times. `grid_block_drop` has fuel 129 and the ghost 130: a row
-- number is at most 127 and a block below row 0 collides. All three are shown to return. The loops
-- that subtract have the number that they start from plus one as fuel, those over the line 84, the
-- bytes of the buffer, and the loop over the arguments 9; these too are shown to return. The rounds
-- of the script have fuel, and any that is more than the 4096 pixels is shown to be enough. The wait
-- for the first key and the pause of Tetris take their fuel as an argument, and the theorems on them
-- say for how long the wait is. So do the waits of Trex, before the game and after a hit, each of
-- which the theorem on it takes to end: its hypothesis bounds the reads from anywhere to a byte.
--
-- Drawing and printing change nothing that a game reads, so in Tetris they stand beside its
-- state; in Trex and in the animation the register writes are a field of it.
-- That a UART transmitter becomes ready, and that the vertical blank comes, is taken for granted.
--
-- Not modelled: the test of the VGA (vga_test.c), the words of nyancat-frames.h, which are data,
-- what the script downloads, parses and prints, and `tui copy.c`, a copy of another project's library
-- that is not built. The hardware, in Chisel, and its simulator are in other languages.
pub mod Common
pub mod Vga
pub mod Tetris
pub mod Trex
pub mod Shell
pub mod Nyancat
pub mod UartTest
pub mod Tests
