-- ===== src/Lib.antt =====
-- The readings of the meteo weather station tools, from the bytes on the line to stored and drawn data.
--
-- A station sends packets with a check sum over a channel. The daemon wakes the station up, asks for a
-- number of packets, checks each one, reads its fields through a table of readers, calibrates them,
-- converts units, and gathers the readings of a minute in recorders that go to the database. The
-- drawing programs load series of averages from there and combine them. The parts and their files:
--
--   Crc            lib/crc.c. `Crc` has the table and the functions. `Crc/Xor` and `Crc/Detect` carry the
--                  algebra, and `Crc/Polynomial` the division that the table stands for.
--   Reader         lib/*Reader.cc. `Reader/Raw` has bytes, shorts and nibbles at an offset, `Reader/Kinds`
--                  one constructor for each reader class with `valid` and `value`, `Reader/Calibrator`
--                  lib/Calibrator.cc, `Reader/Factory` lib/PacketReaderFactory.cc, and `Reader/Tables`
--                  lib/ReaderInfo.cc, lib/StationFactory.cc and the packet sizes of the station classes.
--   Channel        lib/Channel.cc. The line is a list of events, one for each `select`: a character, a
--                  silence, a closed or a failed descriptor. After the list the line is quiet for good. A
--                  member function takes the channel and returns a result and the channel.
--   Davis          lib/DavisStation.cc, lib/VantagePro.cc and lib/OldDavisStation.cc: packets, the wait for
--                  an acknowledge, the wake-up, commands and memory reads.
--   Vector         lib/Vector.cc, with the functions of the C library as a parameter.
--   Value          lib/Value.cc: handles on counted objects in a store. `Value/Quantity` has the content of a
--                  value: lib/BasicValueFactory.cc, lib/ValueFactory.cc, lib/Converter.cc and lib/Wind.cc.
--                  `Recorder/Handle` and `Reader/Handle` have lib/Recorder.cc and lib/PacketReader.cc on the
--                  same store.
--   Station        lib/Station.cc: the map from names to readers. `Station/Models` has the constructors of
--                  lib/WMII.cc, lib/GroWeather.cc, lib/Energy.cc and lib/Health.cc over the channel, and
--                  `Station/Vantage` that of lib/VantagePro.cc.
--   Sensor         lib/DataRecorder.cc, lib/SensorStation.cc and the update, the reset and the outlets of
--                  lib/Station.cc, on top of Station and Recorder. A `std::map` is `Base/Dict`.
--   Converter      lib/*Converter.cc and lib/ConverterFactory.cc.
--   Recorder       lib/BasicRecorder.cc, lib/MinmaxRecorder.cc, lib/RainRecorder.cc and lib/WindRecorder.cc,
--                  and with `Recorder/Factory` lib/RecorderFactory.cc and the virtual functions.
--   Tdata          lib/Tdata.cc. `Tdata/Series` has the operations on one set of data, `Tdata/Algebra`
--                  those on two.
--   Query          lib/Query.cc and the `perform` of lib/QueryProcessor.cc on a query: a query for named
--                  fields, and the rows of the database sorted into one Tdata for each name. The answer of
--                  the database is a parameter.
--   Near           lib/Datarecord.cc and the nearRecord of lib/QueryProcessor.cc: the values of a time.
--   Names          lib/FQField_internals.cc and lib/FQField.cc: ids of fields by their names, with caches.
--   Derived        lib/Dewpoint.cc, lib/Heatindex.cc, lib/Windchill.cc and lib/Derivedvalue.cc.
--   Dataset        lib/Dataset.cc: expressions in XML over sets of data, on top of Tdata and Derived.
--                  `Dataset/Expression` has the expressions that the nodes stand for.
--   Lock           lib/Lock.cc, with the semaphores of the operating system as a parameter.
--   Averager       lib/Averager.cc: the averaging groups. `Averager/Add` has the statements that add and
--                  remove averages, and `Averager/Daemon` src/meteoavg.cc.
--   Queue          lib/MsgQueuer.cc, lib/MsgDequeuer.cc and the loop of src/meteodequeue.cc, with the message
--                  queue of the system as a parameter.
--   Outlet         lib/Outlet.cc, lib/QueryOutlet.cc and lib/Datasink.cc, on top of Sensor's rows and Queue.
--   Poll           the loop of src/meteopoll.cc, on top of Sensor and the outlets: packets, minutes and rows.
--   Fixstamps      support/meteofixtimestamps.c: the copy of a table with its time stamps converted.
--   Frame          lib/Frame.cc: the calls of the gd library.
--   Window         lib/GraphWindow.cc: the columns of a graph and what is drawn in them, on top of Frame, Scale
--                  and Tdata. `Window/Grid` has the time grid and the image map.
--   Time           lib/Timeval.cc, lib/Level.cc, and with `Time/Label` lib/Timelabel.cc.
--   Scale          lib/Scale.cc.
--   Base           what they share: tests on natural numbers, lists, results, signed integers, texts, and
--                  the interface of doubles.
--   Tests          concrete runs.
--
-- Conventions. An exception is a result `err`; the reason is kept, its text is not. An access that C++
-- gives no meaning to is the reason `undefined`. Fixed-width integers wrap as in the source. A double is
-- a type with the operations that the code uses (`Base/Double`), and a theorem about doubles holds for
-- every such type, or names the laws it needs, or says that it is about integers, which are the instance
-- of the tests. Local time and the printed forms of numbers are arguments.
--
-- Bounds. The wait for an acknowledge ends with the events of the line. The wake-up calls as often as it
-- is told and once more. A loop over times takes as many turns at most as there are times in its range,
-- since the interval is one or more. The recursion that normalizes a label takes a bound for its depth; two
-- rounds are enough where the clock is never moved. The loop that makes an angle positive turns once.
-- The copy of a table takes at most as many turns as there are seconds from its first time to its last.
--
-- Not modelled: the operating system's files, sockets and clocks, the database, the configuration file,
-- the gd library and the value grid of a graph, the formulas of the sun, the programs of src and support that
-- have no file above, log messages, and the text and XML output.
pub mod Base
pub mod Crc
pub mod Reader
pub mod Channel
pub mod Davis
pub mod Time
pub mod Value
pub mod Vector
pub mod Station
pub mod Sensor
pub mod Scale
pub mod Converter
pub mod Recorder
pub mod Lock
pub mod Averager
pub mod Tdata
pub mod Query
pub mod Derived
pub mod Dataset
pub mod Names
pub mod Queue
pub mod Outlet
pub mod Poll
pub mod Near
pub mod Fixstamps
pub mod Frame
pub mod Window
pub mod Tests
